-- ===== src/Pool/Relays/Kept.antt =====
-- What a refresh of the relays keeps of the pool.
use global_egress.Shared.{
  ◌+◌, ◌≡◌, true, List, map, none, some, Bytes, In, ◌⊎◌, Result, ok, err, length, bytes_eq,
}
use global_egress.Pool.State.{Spec, Session, SlotState, Pool, Error}
use global_egress.Pool.Setup.{new_slot, has_id}
use global_egress.Pool.Relays.{RelayReconcileResult, slot_of, not_relay, respec}

-- What the state for a spec is: the one of its ID, with the new spec, or a new one.
abbrev pub state_for : Spec → List SlotState → SlotState
state_for spec slots = elim (slot_of spec.id slots) [
  | none ↦ new_slot spec
  | some s ↦ respec spec s
]

abbrev IsStates : List Spec → List SlotState → Result Error (List SlotState) → Type 0
IsStates specs slots (err e) = Unit
IsStates specs slots (ok relays) =
    ((spec : Spec) → In spec specs → In (state_for spec slots) relays)
    × ((u : SlotState) → In u relays → In u.spec specs)

-- The states but for their specs.
abbrev pub but_specs : List SlotState → List (Spec → SlotState)
but_specs = map (λ s spec. respec spec s)

-- What the pool is after the relays were replaced.
pub record IsReconciled (specs : List Spec) (p q : Pool) (r : RelayReconcileResult) : Type 0 where
  pub others : (s : SlotState) → In s p.slots → not_relay s ≡ true → In s q.slots
  pub relays : (spec : Spec) → In spec specs → In (state_for spec p.slots) q.slots
  pub only :
      (s : SlotState) → In s q.slots → In s.spec specs ⊎ (In s p.slots × (not_relay s ≡ true))
  pub sessions :
      (x : Bytes × Session)
      → In x q.sessions
      → In x p.sessions × (has_id x.1.slot_id q.slots ≡ true)
  pub kept_sessions :
      (x : Bytes × Session) → In x p.sessions → has_id x.1.slot_id q.slots ≡ true → In x q.sessions
  pub counted : r.added + r.retained ≡ length specs
  pub apart : record q { slots = p.slots; sessions = p.sessions } ≡ p

abbrev pub Reconciles : List Spec → Pool → Pool × Result Error RelayReconcileResult → Type 0
Reconciles specs p (q, err e) =
    (record q { slots = p.slots } ≡ p) × (but_specs q.slots ≡ but_specs p.slots)
Reconciles specs p (q, ok r) = IsReconciled specs p q r
