-- ===== src/Pool/Pick/Oldest.antt =====
-- recycleOldestBatchExitLocked in internal/pool/pool.go: which slot of an exhausted batch it finds.
use global_egress.Shared.{
  ℕ, ◌≤◌, ◌<◌, ◌≡◌, ◌≢◌, lt→ltb, refl, ◌∙◌, true, false, [], ◌∷◌, Option, none, some, Bytes,
  bytes_eq, addr_eq, arith, lookup, is_empty, In,
}
use global_egress.Policy.{Policy}
use global_egress.Pool.State.{SlotState, Pool, Batch}
use global_egress.Pool.Eligible.{without_batch}
use global_egress.Pool.Eligible.Admits.{admits}
use global_egress.Pool.Pick.{oldest_burn, recycle_in, recycle}
use global_egress.Pool.Pick.Choice.{burn_of, IsBurned, IsBurnedExit, oldest_burn-IsBurnedExit}
use global_egress.Pool.Pick.Burned.{FoundBy, oldest_burn-FoundBy}

recycle_in-oldest :
    (p : Pool) (b : Batch) (pol : Policy) (target : Bytes) (now : ℕ) (t : SlotState)
    (best : Option (SlotState × ℕ))
    → (oldest_burn p b pol target now p.ip_cooldowns p.slots none).0 ≡ best
    → IsBurnedExit p b pol target now best
    → FoundBy (burn_of b t) best
    → (s : SlotState) × ((recycle_in b pol target now p).1 ≡ some s)
      × In s p.slots
      × (admits p s (without_batch pol) target now ≡ true)
      × IsBurned b s
      × (burn_of b s ≤ burn_of b t)
unfolding recycle_in
recycle_in-oldest p b pol target now t none e good least = absurd least
recycle_in-oldest p b pol target now t (some (s, seq)) e (m, a, burned, at) least =
    (s, rw (e, recycle_in) refl, m, a, burned, omega (arith, at, least))

-- What recycleOldestBatchExitLocked finds; pick asks it only where no slot of the pool passes every
-- filter. For a policy that asks for recycling and whose live batch has burned the address of some slot
-- that passes every other filter, it finds a slot: one of the pool that passes every other filter, whose
-- address the batch burned, and no such slot of the pool was burned before it.
pub recycle-oldest :
    (p : Pool) (b : Batch) (pol : Policy) (target : Bytes) (now : ℕ) (t : SlotState)
    → pol.recycle_batch ≡ true
    → pol.unique_batch ≢ []
    → lookup pol.unique_batch p.batches ≡ some b
    → now < b.expires_at
    → In t p.slots
    → admits p t (without_batch pol) target now ≡ true
    → IsBurned b t
    → (s : SlotState) × ((recycle pol target now p).1 ≡ some s)
      × In s p.slots
      × (admits p s (without_batch pol) target now ≡ true)
      × IsBurned b s
      × (burn_of b s ≤ burn_of b t)
unfolding recycle
recycle-oldest p b pol target now t wanted named found live i a burned =
    let opened : (recycle pol target now p).1 ≡ (recycle_in b pol target now p).1 =
      ground (arith, not_empty pol.unique_batch named, lt→ltb now b.expires_at live) in
    let (s, given, m, a', burned', least) =
      recycle_in-oldest p b pol target now t _ refl
        (oldest_burn-IsBurnedExit p b pol target now p.ip_cooldowns p.slots none (λ u ip. refl)
          (λ u m. m) tt)
        (oldest_burn-FoundBy p b pol target now p.ip_cooldowns p.slots none t (λ u ip. refl) i a
          burned) in
    (s, opened ∙ given, m, a', burned', least)
  where
    not_empty : (s : Bytes) → s ≢ [] → is_empty s ≡ false
    not_empty [] h = absurd (h refl)
    not_empty (c ∷ cs) h = refl
