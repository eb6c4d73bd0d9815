-- ===== src/Pool/Opening/Sound.antt =====
-- What is kept while tunnels are opened, and by the reservation of capacity.
use global_egress.Shared.{
  ℕ, ◌+◌, ◌<◌, ◌≡◌, refl, ap, sym, subst, ◌∙◌, Bool, true, false, not, ◌||◌, List, [], ◌∷◌, Option,
  none, some, Bytes, arith, All, Bool-cases, inl, inr, In, ◌⊎◌, if◌then◌else◌, length, bytes_eq,
  ◌==◌, ltb, Result, ok, err, filter, nat_eq,
}
use global_egress.Pool.State.{SlotState, Pool, Error, capacity, tunnel_budget}
use global_egress.Pool.Budget.{
  update_slots, update_slot, close_slot, open_count, victim, reserve_capacity, reserve_tunnel_open,
  commit_tunnel_open, tunnel_budget_available, prune_opens,
}
use global_egress.Pool.System.Limits.{Capped}
use global_egress.Pool.Setup.Ascending.{HasOwnIds}
use global_egress.Pool.Opening.Flights.{
  IsApart, All-update_slots, HasOwnIds-update_slots, close-count, victim-In,
}

-- The pool, with the slots whose Open is in flight.
pub record Openings : Type 0 where
  pub pool : Pool
  pub flights : List Bytes

abbrev pub without : Bytes → List Bytes → List Bytes
without id = filter (λ x. not (x == id))

-- What changes neither the limit nor what counts against it.
pub record Aside (p q : Pool) : Type 0 where
  pub opts : q.opts ≡ p.opts
  pub slots : q.slots ≡ p.slots
  pub entries : q.entries ≡ p.entries
  pub probes : q.probe_tunnels ≡ p.probe_tunnels

pub reserve_tunnel_open-Aside : (now : ℕ) (p : Pool) → Aside p (reserve_tunnel_open now p).0
unfolding reserve_tunnel_open tunnel_budget_available prune_opens
reserve_tunnel_open-Aside now p =
    free (p.opts.new_tunnel_budget == 0)
      (ltb (length (prune_opens now p).opens + p.pending_tunnel_opens) p.opts.new_tunnel_budget)
  where
    settle : Pool × Bool → Pool × Result Error (Unit {0})
    settle (q, available) =
        if available
        then (record q { pending_tunnel_opens = q.pending_tunnel_opens + 1 }, ok tt)
        else (q, err tunnel_budget)

    free :
        (b available : Bool)
        → Aside p (settle (if b then (p, true) else (prune_opens now p, available))).0
    free true available = record { opts = refl; slots = refl; entries = refl; probes = refl }
    free false true = record { opts = refl; slots = refl; entries = refl; probes = refl }
    free false false = record { opts = refl; slots = refl; entries = refl; probes = refl }

pub commit_tunnel_open-Aside : (now : ℕ) (p : Pool) → Aside p (commit_tunnel_open now p)
unfolding commit_tunnel_open prune_opens
commit_tunnel_open-Aside now p = record { opts = refl; slots = refl; entries = refl; probes = refl }

-- The limit on what is open or being opened; a limit of 0 is none.
abbrev pub IsWithin : Pool → Type 0
IsWithin p = Capped p.opts.max_active (open_count p)

abbrev pub IsOpening : List SlotState → Bytes → Type 0
IsOpening ss id = All (λ s. s.spec.id ≡ id → s.opening ≡ true) ss

-- Every flight is the only one of its slot.
abbrev pub AreSingle : List Bytes → Type 0
AreSingle [] = Unit
AreSingle (id ∷ ids) = (¬ In id ids) × AreSingle ids

pub record AreSound (o : Openings) : Type 0 where
  pub own : HasOwnIds o.pool.slots
  pub apart : All IsApart o.pool.slots
  pub within : IsWithin o.pool
  pub single : AreSingle o.flights
  pub flown : (id : Bytes) → In id o.flights → IsOpening o.pool.slots id

pub Aside-AreSound :
    (p q : Pool) (flights : List Bytes)
    → Aside p q
    → AreSound (record { pool = p; flights = flights })
    → AreSound (record { pool = q; flights = flights })
unfolding open_count
Aside-AreSound p q flights a v = record {
  own = subst HasOwnIds (sym a.slots) v.own;
  apart = subst (All IsApart) (sym a.slots) v.apart;
  within = rw (a.opts, a.slots, a.entries, a.probes) v.within;
  single = v.single;
  flown = λ id m. subst (λ ss. IsOpening ss id) (sym a.slots) (v.flown id m);
}

abbrev pub HasRoom : Pool → Type 0
HasRoom p = (p.opts.max_active ≡ 0) ⊎ (open_count p < p.opts.max_active)

abbrev pub IsGrounded : List SlotState → Bytes → Type 0
IsGrounded ss id = All (λ s. s.spec.id ≡ id → s.tunnel ≡ false) ss

abbrev pub Makes : List Bytes → Pool → Pool × Result Error (Unit {0}) → Type 0
Makes flights p (q, ok u) =
    AreSound (record { pool = q; flights = flights })
    × HasRoom q
    × ((id : Bytes) → IsGrounded p.slots id → IsGrounded q.slots id)
Makes flights p (q, err e) = AreSound (record { pool = q; flights = flights })

-- A close keeps the ID, the state of the opening, and at most one of the two.
pub close_slot-keeps :
    (s : SlotState)
    → ((close_slot s).spec ≡ s.spec)
      × ((close_slot s).opening ≡ s.opening)
      × (IsApart s → IsApart (close_slot s))
      × (s.tunnel ≡ false → (close_slot s).tunnel ≡ false)
unfolding close_slot
close_slot-keeps s = elim (Bool-cases s.tunnel) [
  | inl e ↦ rw e (refl, refl, λ a. refl, λ h. refl)
  | inr e ↦ (rw e refl, rw e refl, λ a. ground (arith, e), λ h. ground (arith, e))
]

-- An opening stays what it is under an update that does not end it.
pub IsOpening-update :
    (id other : Bytes) (f : SlotState → SlotState) (ss : List SlotState)
    → ((s : SlotState) → (f s).spec ≡ s.spec)
    → ((s : SlotState)
        → s.spec.id ≡ id
        → s.spec.id ≡ other
        → s.opening ≡ true
        → (f s).opening ≡ true)
    → IsOpening ss other
    → IsOpening (update_slots id f ss) other
IsOpening-update id other f ss keeps step h =
    All-update_slots (λ s. s.spec.id ≡ other → s.opening ≡ true) id f ss
      (λ s matched k named.
        let same : s.spec.id ≡ other = ap (λ x. x.id) (sym (keeps s)) ∙ named in
        step s matched same (k same))
      h

pub evicted :
    (p : Pool) (flights : List Bytes) (v : SlotState)
    → AreSound (record { pool = p; flights = flights })
    → victim p.slots none ≡ some v
    → let q = update_slot v.spec.id close_slot p in
      AreSound (record { pool = q; flights = flights }) × (open_count q < open_count p)
unfolding open_count
evicted p flights v sound chosen = (after, fewer)
  where
    there : In v p.slots × (v.tunnel ≡ true)
    there = elim (victim-In p.slots none v chosen) [ inl e ↦ absurd (nothing e) | inr m ↦ m ]
      where
        nothing : ◌≡◌ {A = Option SlotState} none (some v) → ⊥
        nothing e = cc

    fewer : open_count (update_slot v.spec.id close_slot p) < open_count p
    fewer = omega (arith, close-count v p.slots there.0 there.1 sound.apart)

    after : AreSound (record { pool = update_slot v.spec.id close_slot p; flights = flights })
    after = record {
      own =
          HasOwnIds-update_slots v.spec.id close_slot p.slots (λ s. (close_slot-keeps s).0)
            sound.own;
      apart =
          All-update_slots IsApart v.spec.id close_slot p.slots (λ s _. (close_slot-keeps s).2)
            sound.apart;
      within = ground (arith, fewer, sound.within);
      single = sound.single;
      flown = λ id m.
          IsOpening-update v.spec.id id close_slot p.slots (λ s. (close_slot-keeps s).0)
            (λ s _ _ k. (close_slot-keeps s).1 ∙ k) (sound.flown id m);
    }

pub reserve_capacity-Makes :
    (p : Pool) (flights : List Bytes)
    → AreSound (record { pool = p; flights = flights })
    → Makes flights p (reserve_capacity p)
unfolding reserve_capacity
reserve_capacity-Makes p flights sound =
    test (p.opts.max_active == 0 || ltb (open_count p) p.opts.max_active) refl
  where
    chosen : Option SlotState → Pool × Result Error (Unit {0})
    chosen none = (p, err capacity)
    chosen (some v) = (update_slot v.spec.id close_slot p, ok tt)

    full : (o : Option SlotState) → victim p.slots none ≡ o → Makes flights p (chosen o)
    full none e = sound
    full (some v) e =
        let (after, fewer) = evicted p flights v sound e in
        (
          after,
          ground (arith, fewer, sound.within),
          λ id h.
              All-update_slots (λ s. s.spec.id ≡ id → s.tunnel ≡ false) v.spec.id close_slot p.slots
                (λ s _ k named.
                  (close_slot-keeps s).3 (k (ap (λ x. x.id) (sym (close_slot-keeps s).0) ∙ named)))
                h,
        )

    test :
        (b : Bool)
        → (p.opts.max_active == 0 || ltb (open_count p) p.opts.max_active) ≡ b
        → Makes flights p (if b then (p, ok tt) else chosen (victim p.slots none))
    test true e = (sound, ground (arith, e), λ id h. h)
    test false e = full (victim p.slots none) refl

pub HasRoom-Aside : (p q : Pool) → Aside p q → HasRoom p → HasRoom q
unfolding open_count
HasRoom-Aside p q a room = rw (a.opts, a.slots, a.entries, a.probes) room
