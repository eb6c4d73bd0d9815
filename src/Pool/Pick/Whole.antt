-- ===== src/Pool/Pick/Whole.antt =====
-- The whole of `pick`: the stages before the choice, and what every branch leaves.
use global_egress.Shared.{
  ℕ, ◌+◌, ◌<◌, ◌≤◌, ◌≡◌, ◌⊎◌, refl, sym, subst, ◌∙◌, Bytes, bytes_eq, ◌==◌, arith, Bool-cases, inl,
  inr, Option, none, some, ok, lookup, Bool, In, In-find, is_empty, true, ltb, ◌||◌, not,
}
use global_egress.Policy.{Policy}
use global_egress.Pool.State.{SlotState, Pool, Session}
use global_egress.Pool.Cooldowns.{expire}
use global_egress.Pool.Eligible.{eligible, without_batch}
use global_egress.Pool.Eligible.Admits.{eligible-Agree, eligible-admits}
use global_egress.Pool.Eligible.Serves.{Serves, admits-Serves}
use global_egress.Pool.Pick.{
  Picked, find_slot, pick_again, pick_pinned, pick_session, pick_within, pick, scope_of,
  at_capacity,
}
use global_egress.Pool.Pick.Choice.{Recycled, Chosen, Keeps}
use global_egress.Pool.Pick.Stages.{Outcome, PickOutcome, take-Outcome, pick_fresh-Outcome}
use global_egress.Pool.Loads.{Frame-refl}

module _ (p : Pool) (pol : Policy) (target : Bytes) (now : ℕ) where
  Keeps-refl : Keeps now p p
  Keeps-refl = record {
    opts = refl;
    leased = refl;
    pending = refl;
    slots = refl;
    batches = refl;
    agree = λ t a. refl;
  }

  pick_again-Outcome :
      (q : Pool) (draw : ℕ)
      → Keeps now p q
      → Outcome p pol target now (pick_again pol target now draw q)
  unfolding pick_again
  pick_again-Outcome q draw k = pick_fresh-Outcome p pol target now _ draw (record {
    opts = k.opts;
    leased = k.leased;
    pending = k.pending;
    slots = k.slots;
    batches = k.batches;
    agree = k.agree;
  })

  abbrev tested : SlotState → Bool
  tested s = (eligible p p.ip_cooldowns s pol target now).0

  abbrev after_test : SlotState → Pool
  after_test s = record p { ip_cooldowns = (eligible p p.ip_cooldowns s pol target now).1 }

  after_test-Keeps : (s : SlotState) → Keeps now p (after_test s)
  after_test-Keeps s = record {
    opts = refl;
    leased = refl;
    pending = refl;
    slots = refl;
    batches = refl;
    agree = eligible-Agree p p.ip_cooldowns s pol target now;
  }

  pick_pinned-Outcome :
      (draw : ℕ) (sess : Session)
      → Outcome p pol target now (pick_pinned pol target now draw sess p)
  unfolding pick_pinned
  pick_pinned-Outcome draw sess = split (find_slot sess.slot_id p.slots) refl
    where
      usable :
          (s : SlotState)
          → find_slot sess.slot_id p.slots ≡ some s
          → Outcome p pol target now (pick_pinned pol target now draw sess p)
      usable s e = elim (Bool-cases (tested s)) [
        | inl passes ↦
            rw (e, passes, pick_pinned)
              (take-Outcome p pol target now s true _
                (record { opts = refl; leased = refl; pending = refl; loads = refl })
                (
                  (In-find (λ t. t.spec.id == sess.slot_id) p.slots e).0,
                  inl (
                      sym (eligible-admits p p.ip_cooldowns s pol target now (λ t a. refl))
                      ∙ passes),
                ))
        | inr fails ↦
            rw (e, fails, pick_pinned) (pick_again-Outcome (after_test s) draw (after_test-Keeps s))
      ]

      split :
          (o : Option SlotState)
          → find_slot sess.slot_id p.slots ≡ o
          → Outcome p pol target now (pick_pinned pol target now draw sess p)
      split none e = rw (e, pick_pinned) (pick_again-Outcome p draw Keeps-refl)
      split (some s) e = usable s e

  pick_session-Outcome : (draw : ℕ) → Outcome p pol target now (pick_session pol target now draw p)
  unfolding pick_session
  pick_session-Outcome draw = split (lookup pol.session p.sessions) refl
    where
      split :
          (o : Option Session)
          → lookup pol.session p.sessions ≡ o
          → Outcome p pol target now (pick_session pol target now draw p)
      split none e = rw (e, pick_session) (pick_fresh-Outcome p pol target now p draw Keeps-refl)
      split (some sess) e =
          elim (Bool-cases (is_empty pol.session || not (ltb now sess.expires_at))) [
            | inl stale ↦
                rw (e, stale, pick_session) (pick_fresh-Outcome p pol target now p draw Keeps-refl)
            | inr live ↦ rw (e, live, pick_session) (pick_pinned-Outcome draw sess)
          ]

-- The policy and the load of the pool let a selection begin.
pub record Admitted (p : Pool) (pol : Policy) : Type 0 where
  pub short_session : pol.ttl ≤ p.opts.max_session_ttl
  pub short_batch : pol.batch_ttl ≤ p.opts.max_batch_ttl
  pub room :
      (p.opts.max_concurrent_conns ≡ 0)
      ⊎ (p.leased + p.pending_leases < p.opts.max_concurrent_conns)

pick_within-Outcome :
    (p : Pool) (pol : Policy) (target : Bytes) (now draw : ℕ)
    → Outcome p pol (scope_of pol target) now (pick_within pol target now draw p)
unfolding pick_within
pick_within-Outcome p pol target now draw = elim (Bool-cases (ltb p.opts.max_session_ttl pol.ttl)) [
  | inl long ↦ rw (long, pick_within) (Frame-refl p)
  | inr short ↦ elim (Bool-cases (ltb p.opts.max_batch_ttl pol.batch_ttl)) [
    | inl long ↦ rw (short, long, pick_within) (Frame-refl p)
    | inr short' ↦ elim (Bool-cases (at_capacity p)) [
      | inl full ↦
          rw (short, short', full, pick_within)
            (record { opts = refl; leased = refl; pending = refl; loads = refl })
      | inr room ↦
          rw (short, short', room, pick_within)
            (pick_session-Outcome p pol (scope_of pol target) now draw)
    ]
  ]
]

pick_within-Admitted :
    (p : Pool) (pol : Policy) (target : Bytes) (now draw : ℕ) (x : Picked)
    → (pick_within pol target now draw p).1 ≡ ok x
    → Admitted p pol
unfolding pick_within
pick_within-Admitted p pol target now draw x h = ground arith

-- Every selection that succeeds was admitted by the limits of the pool.
pub pick-Admitted :
    (p : Pool) (pol : Policy) (target : Bytes) (now draw : ℕ) (x : Picked)
    → (pick pol target now draw p).1 ≡ ok x
    → Admitted (expire now p) pol
unfolding pick
pick-Admitted p pol target now draw x h =
    pick_within-Admitted (expire now p) pol target now draw x h

pub pick-Outcome :
    (p : Pool) (pol : Policy) (target : Bytes) (now draw : ℕ)
    → Outcome (expire now p) pol (scope_of pol target) now (pick pol target now draw p)
unfolding pick
pick-Outcome p pol target now draw = pick_within-Outcome (expire now p) pol target now draw

pub pick-Chosen :
    (p : Pool) (pol : Policy) (target : Bytes) (now draw : ℕ) (x : Picked)
    → (pick pol target now draw p).1 ≡ ok x
    → Chosen (expire now p) pol (scope_of pol target) now x.slot
pick-Chosen p pol target now draw x h =
    (subst (PickOutcome (expire now p) pol (scope_of pol target) now _) h
      (pick-Outcome p pol target now draw)).1

-- The slot that `pick` returns is a slot of the pool. It serves the policy for the destination (or for
-- the health scope that stands for it), in every respect that `Serves` names, or it is recycled: the
-- policy asks for that, no slot of the pool passes every filter, the slot serves the policy but for the
-- batch, which is live and has burned the slot's address, and the batch burned no other such slot before.
pub pick-Serves :
    (p : Pool) (pol : Policy) (target : Bytes) (now draw : ℕ) (x : Picked)
    → (pick pol target now draw p).1 ≡ ok x
    → let q = expire now p in
      In x.slot q.slots
      × (Serves q x.slot pol (scope_of pol target) now
          ⊎ (Recycled q pol (scope_of pol target) now x.slot
              × Serves q x.slot (without_batch pol) (scope_of pol target) now))
pick-Serves p pol target now draw x h = serves (pick-Chosen p pol target now draw x h)
  where
    q : Pool
    q = expire now p

    serves :
        Chosen q pol (scope_of pol target) now x.slot
        → In x.slot q.slots
          × (Serves q x.slot pol (scope_of pol target) now
              ⊎ (Recycled q pol (scope_of pol target) now x.slot
                  × Serves q x.slot (without_batch pol) (scope_of pol target) now))
    serves (m, inl a) = (m, inl (admits-Serves q x.slot pol (scope_of pol target) now a))
    serves (m, inr r) = (
      m,
      inr (r, admits-Serves q x.slot (without_batch pol) (scope_of pol target) now r.admitted),
    )
