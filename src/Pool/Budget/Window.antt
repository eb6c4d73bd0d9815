-- ===== src/Pool/Budget/Window.antt =====
-- The new-tunnel budget over time: how many relays are contacted within any window.
use global_egress.Shared.{
  ℕ, ◌+◌, ◌≤◌, ◌<◌, ◌≡◌, refl, sym, ap, subst, ◌∙◌, List, [], ◌∷◌, ◌++◌, if◌then◌else◌, arith,
  Bool-cases, inl, inr, length, count_if, ltb, ◌==◌, nat_eq,
}
use global_egress.Pool.State.{Pool}
use global_egress.Pool.Budget.{
  in_window, prune_opens, tunnel_budget_available, reserve_tunnel_open, commit_tunnel_open,
  rollback_tunnel_open,
}

-- How many of the times lie within the window that ends now.
abbrev pub contacts : ℕ → ℕ → List ℕ → ℕ
contacts window now = count_if (λ at. ltb now (at + window))

abbrev From : ℕ → List ℕ → Type 0
From low [] = Unit {0}
From low (x ∷ xs) = (low ≤ x) × From x xs

abbrev UpTo : ℕ → List ℕ → Type 0
UpTo high [] = Unit {0}
UpTo high (x ∷ xs) = (x ≤ high) × UpTo high xs

From-weaken : (a b : ℕ) (xs : List ℕ) → a ≤ b → From b xs → From a xs
From-weaken a b [] h f = tt
From-weaken a b (x ∷ xs) h f = (omega arith, f.1)

UpTo-weaken : (a b : ℕ) (xs : List ℕ) → a ≤ b → UpTo a xs → UpTo b xs
UpTo-weaken a b [] h f = tt
UpTo-weaken a b (x ∷ xs) h f = (omega arith, UpTo-weaken a b xs h f.1)

contacts-all :
    (window now : ℕ) (x : ℕ) (xs : List ℕ)
    → From x xs
    → now < x + window
    → contacts window now xs ≡ length xs
contacts-all window now x [] f h = refl
contacts-all window now x (y ∷ ys) f h = ground (arith, contacts-all window now y ys f.1)

length-in_window :
    (window now low : ℕ) (xs : List ℕ)
    → From low xs
    → length (in_window window now xs) ≡ contacts window now xs
unfolding in_window
length-in_window window now low [] f = refl
length-in_window window now low (x ∷ xs) f =
    ground (arith, length-in_window window now x xs f.1, contacts-all window now x xs f.1)

contacts-in_window :
    (window now later : ℕ) (xs : List ℕ)
    → now ≤ later
    → contacts window later (in_window window now xs) ≡ contacts window later xs
unfolding in_window
contacts-in_window window now later [] h = refl
contacts-in_window window now later (x ∷ xs) h = elim (Bool-cases (ltb now (x + window))) [
  | inl stays ↦ rw stays refl
  | inr goes ↦ rw goes (ground (arith, contacts-in_window window now later xs h))
]

From-in_window :
    (window now low : ℕ) (xs : List ℕ) → From low xs → From low (in_window window now xs)
unfolding in_window
From-in_window window now low [] f = tt
From-in_window window now low (x ∷ xs) f = elim (Bool-cases (ltb now (x + window))) [
  | inl stays ↦ rw stays f
  | inr goes ↦
      rw goes (From-weaken low x (in_window window now xs) f.0 (From-in_window window now x xs f.1))
]

UpTo-in_window :
    (window now high : ℕ) (xs : List ℕ) → UpTo high xs → UpTo high (in_window window now xs)
unfolding in_window
UpTo-in_window window now high [] f = tt
UpTo-in_window window now high (x ∷ xs) f = elim (Bool-cases (ltb now (x + window))) [
  | inl stays ↦ rw stays f
  | inr goes ↦ rw goes (UpTo-in_window window now high xs f.1)
]

From-snoc : (low t : ℕ) (xs : List ℕ) → low ≤ t → From low xs → UpTo t xs → From low (xs ++ t ∷ [])
From-snoc low t [] h f u = (h, tt)
From-snoc low t (x ∷ xs) h f u = (f.0, From-snoc x t xs u.0 f.1 u.1)

UpTo-snoc : (t : ℕ) (xs : List ℕ) → UpTo t xs → UpTo t (xs ++ t ∷ [])
UpTo-snoc t [] u = (omega arith, tt)
UpTo-snoc t (x ∷ xs) u = (u.0, UpTo-snoc t xs u.1)

contacts-snoc :
    (window now t : ℕ) (xs : List ℕ)
    → contacts window now (xs ++ t ∷ []) ≡ contacts window now (t ∷ xs)
contacts-snoc window now t [] = refl
contacts-snoc window now t (x ∷ xs) = omega (arith, contacts-snoc window now t xs)

contacts_later :
    (window now later : ℕ) (xs : List ℕ)
    → now ≤ later
    → contacts window later xs ≤ contacts window now xs
contacts_later window now later [] h = omega arith
contacts_later window now later (x ∷ xs) h = ground (arith, contacts_later window now later xs h)

-- The pool, every contact there ever was, newest first, and the time of the last step.
pub record Meter : Type 0 where
  pub pool : Pool
  pub history : List ℕ
  pub clock : ℕ

-- One critical section of an opener, at a time that is not before the last one's. A contact, or its
-- abandonment, follows a reservation.
pub data Tick (m : Meter) : Meter → Type 0 where
  reserves :
      (now : ℕ)
      → m.clock ≤ now
      → Tick m (record m { pool = (reserve_tunnel_open now m.pool).0; clock = now })
  contacts_relay :
      (now : ℕ)
      → m.clock ≤ now
      → 0 < m.pool.pending_tunnel_opens
      → Tick m
          (record { pool = commit_tunnel_open now m.pool; history = now ∷ m.history; clock = now })
  abandons :
      0 < m.pool.pending_tunnel_opens → Tick m (record m { pool = rollback_tunnel_open m.pool })
  looks :
      (now : ℕ) → m.clock ≤ now → Tick m (record m { pool = prune_opens now m.pool; clock = now })

pub data Ticks (m : Meter) : Meter → Type 0 where
  here : Ticks m m
  next : {n k : Meter} → Ticks m n → Tick n k → Ticks m k

abbrev window_of : Meter → ℕ
window_of m = m.pool.opts.new_tunnel_window

record Metered (m : Meter) : Type 0 where
  limited : 0 < m.pool.opts.new_tunnel_budget
  ordered : From 0 m.pool.opens
  past : UpTo m.clock m.pool.opens
  counted :
      (now : ℕ)
      → m.clock ≤ now
      → contacts (window_of m) now m.pool.opens ≡ contacts (window_of m) now m.history
  bounded :
      contacts (window_of m) m.clock m.history + m.pool.pending_tunnel_opens
      ≤ m.pool.opts.new_tunnel_budget

-- Pruning at a time that is not before the clock.
prune_opens-Metered :
    (m : Meter) (now : ℕ)
    → m.clock ≤ now
    → Metered m
    → Metered (record m { pool = prune_opens now m.pool; clock = now })
unfolding prune_opens
prune_opens-Metered m now h v = record {
  limited = v.limited;
  ordered = From-in_window (window_of m) now 0 m.pool.opens v.ordered;
  past =
      UpTo-in_window (window_of m) now now m.pool.opens
        (UpTo-weaken m.clock now m.pool.opens h v.past);
  counted = λ later after.
      contacts-in_window (window_of m) now later m.pool.opens after ∙ v.counted later (omega arith);
  bounded = omega (arith, v.bounded, contacts_later (window_of m) m.clock now m.history h);
}

-- After pruning, the list that is left is as long as the contacts of the window.
pruned_length :
    (m : Meter) (now : ℕ)
    → m.clock ≤ now
    → Metered m
    → length (in_window (window_of m) now m.pool.opens) ≡ contacts (window_of m) now m.history
pruned_length m now h v =
    length-in_window (window_of m) now 0 m.pool.opens v.ordered ∙ v.counted now h

reserve-Metered :
    (m : Meter) (now : ℕ)
    → m.clock ≤ now
    → Metered m
    → Metered (record m { pool = (reserve_tunnel_open now m.pool).0; clock = now })
unfolding reserve_tunnel_open tunnel_budget_available prune_opens
reserve-Metered m now h v =
    let w = prune_opens-Metered m now h v in
    elim (Bool-cases (m.pool.opts.new_tunnel_budget == 0)) [
      | inl none_set ↦ absurd (ground (arith, v.limited))
      | inr set ↦
          elim (Bool-cases (
            ltb (length (in_window (window_of m) now m.pool.opens) + m.pool.pending_tunnel_opens)
              m.pool.opts.new_tunnel_budget)) [
                | inl left ↦
                    rw (set, left)
                      (record {
                        limited = v.limited;
                        ordered = w.ordered;
                        past = w.past;
                        counted = w.counted;
                        bounded = ground (arith, pruned_length m now h v);
                      })
                | inr spent ↦ rw (set, spent) w
              ]
    ]

commit-Metered :
    (m : Meter) (now : ℕ)
    → m.clock ≤ now
    → 0 < m.pool.pending_tunnel_opens
    → Metered m
    → Metered
        (record { pool = commit_tunnel_open now m.pool; history = now ∷ m.history; clock = now })
unfolding commit_tunnel_open prune_opens
commit-Metered m now h pending v =
    let w = prune_opens-Metered m now h v in
    record {
      limited = v.limited;
      ordered =
          From-snoc 0 now (in_window (window_of m) now m.pool.opens) (omega arith) w.ordered w.past;
      past = UpTo-snoc now (in_window (window_of m) now m.pool.opens) w.past;
      counted = λ later after.
          contacts-snoc (window_of m) later now (in_window (window_of m) now m.pool.opens)
          ∙ ap (λ n. (if ltb later (now + window_of m) then 1 else 0) + n) (w.counted later after);
      bounded = ground (arith, w.bounded);
    }

rollback-Metered :
    (m : Meter)
    → 0 < m.pool.pending_tunnel_opens
    → Metered m
    → Metered (record m { pool = rollback_tunnel_open m.pool })
unfolding rollback_tunnel_open
rollback-Metered m pending v = record {
  limited = v.limited;
  ordered = v.ordered;
  past = v.past;
  counted = v.counted;
  bounded = omega (arith, v.bounded);
}

Tick-Metered : {m n : Meter} → Tick m n → Metered m → Metered n
Tick-Metered {m} (reserves now h) v = reserve-Metered m now h v
Tick-Metered {m} (contacts_relay now h pending) v = commit-Metered m now h pending v
Tick-Metered {m} (abandons pending) v = rollback-Metered m pending v
Tick-Metered {m} (looks now h) v = prune_opens-Metered m now h v

Ticks-Metered : {m n : Meter} → Metered m → Ticks m n → Metered n
Ticks-Metered v here = v
Ticks-Metered v (next ts t) = Tick-Metered t (Ticks-Metered v ts)

-- From a pool that has contacted no relay and that has a budget, whatever requests open tunnels and in
-- whatever order their steps fall: at every time from the last step on, the relays contacted within
-- the window that ends then, together with the reservations that are still to contact one at the last
-- step, are at most the budget.
pub Ticks-budget :
    {m n : Meter} (now : ℕ)
    → 0 < m.pool.opts.new_tunnel_budget
    → m.pool.opens ≡ []
    → m.pool.pending_tunnel_opens ≡ 0
    → m.history ≡ []
    → Ticks m n
    → n.clock ≤ now
    → contacts n.pool.opts.new_tunnel_window now n.history + n.pool.pending_tunnel_opens
      ≤ n.pool.opts.new_tunnel_budget
Ticks-budget {m} {n} now limited fresh idle unused ts h =
    omega (arith, end.bounded, contacts_later (window_of n) n.clock now n.history h)
  where
    start : Metered m
    start = record {
      limited = limited;
      ordered = subst (From 0) (sym fresh) tt;
      past = subst (UpTo m.clock) (sym fresh) tt;
      counted = λ t _. ap (contacts (window_of m) t) (fresh ∙ sym unused);
      bounded = omega (arith, ap (contacts (window_of m) m.clock) unused, limited);
    }

    end : Metered n
    end = Ticks-Metered start ts
