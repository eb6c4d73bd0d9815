-- ===== src/Pool/Pick/Sticky.antt =====
-- A live session keeps its exit as long as the exit serves it.
use global_egress.Shared.{
  ℕ, ◌<◌, ◌≡◌, ◌≢◌, refl, ◌∙◌, Bool, true, false, [], ◌∷◌, some, Bytes, bytes_eq, arith, lookup,
  is_empty, lt→ltb, Result, ok, err,
}
use global_egress.Policy.{Policy}
use global_egress.Pool.State.{SlotState, Pool, Session, Error, Reservation}
use global_egress.Pool.Cooldowns.{expire}
use global_egress.Pool.Eligible.{eligible}
use global_egress.Pool.Eligible.Admits.{admits, eligible-admits}
use global_egress.Pool.Reserve.{reserve_acquisition}
use global_egress.Pool.Pick.{
  Picked, find_slot, take, pick_pinned, pick_session, pick_within, pick, scope_of,
}

take-slot :
    (pol : Policy) (s : SlotState) (sticky : Bool) (now : ℕ) (p : Pool) (x : Picked)
    → (take pol s sticky now p).1 ≡ ok x
    → (x.slot ≡ s) × (x.sticky ≡ sticky)
unfolding take
take-slot pol s sticky now p x h = split (reserve_acquisition pol s now p).1 refl
  where
    split :
        (r : Result Error Reservation)
        → (reserve_acquisition pol s now p).1 ≡ r
        → (x.slot ≡ s) × (x.sticky ≡ sticky)
    split (err e) same = cc
    split (ok r) same = ground arith

pick_within-session :
    (pol : Policy) (target : Bytes) (now draw : ℕ) (p : Pool) (x : Picked)
    → (pick_within pol target now draw p).1 ≡ ok x
    → (pick_session pol (scope_of pol target) now draw p).1 ≡ ok x
unfolding pick_within
pick_within-session pol target now draw p x h = ground arith

is_empty-named : (s : Bytes) → s ≢ [] → is_empty s ≡ false
is_empty-named [] h = absurd (h refl)
is_empty-named (c ∷ cs) h = refl

pick_session-pinned :
    (pol : Policy) (target : Bytes) (now draw : ℕ) (p : Pool) (x : Picked) (sess : Session)
    → pol.session ≢ []
    → lookup pol.session p.sessions ≡ some sess
    → now < sess.expires_at
    → (pick_session pol target now draw p).1 ≡ ok x
    → (pick_pinned pol target now draw sess p).1 ≡ ok x
unfolding pick_session
pick_session-pinned pol target now draw p x sess named found live h =
    ground (arith, is_empty-named pol.session named, lt→ltb now sess.expires_at live)

pick_pinned-slot :
    (pol : Policy) (target : Bytes) (now draw : ℕ) (p : Pool) (x : Picked) (sess : Session)
    (s : SlotState)
    → find_slot sess.slot_id p.slots ≡ some s
    → (eligible p p.ip_cooldowns s pol target now).0 ≡ true
    → (pick_pinned pol target now draw sess p).1 ≡ ok x
    → (x.slot ≡ s) × (x.sticky ≡ true)
unfolding pick_pinned
pick_pinned-slot pol target now draw p x sess s found passes h =
    take-slot pol s true now _ x (rw (found, passes, pick_pinned) at h)

-- As long as the slot of a live session passes every filter, a request of the session gets that
-- slot, or an error, and never another slot, whatever the draw and the preferred exits.
pub pick-sticky :
    (p : Pool) (pol : Policy) (target : Bytes) (now draw : ℕ) (x : Picked) (sess : Session)
    (s : SlotState)
    → let q = expire now p in
      pol.session ≢ []
      → lookup pol.session q.sessions ≡ some sess
      → now < sess.expires_at
      → find_slot sess.slot_id q.slots ≡ some s
      → admits q s pol (scope_of pol target) now ≡ true
      → (pick pol target now draw p).1 ≡ ok x
      → (x.slot ≡ s) × (x.sticky ≡ true)
unfolding pick
pick-sticky p pol target now draw x sess s named bound live found passes h =
    let q = expire now p in
    let scope = scope_of pol target in
    pick_pinned-slot pol scope now draw q x sess s found
      (eligible-admits q q.ip_cooldowns s pol scope now (λ t a. refl) ∙ passes)
      (pick_session-pinned pol scope now draw q x sess named bound live
        (pick_within-session pol target now draw q x h))
