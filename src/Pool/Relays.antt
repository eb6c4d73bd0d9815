-- ===== src/Pool/Relays.antt =====
-- ReconcileRelaySlots in internal/pool/relay_reconcile.go: the relays of a running pool are replaced.
pub mod Kept
use global_egress.Shared.{
  ℕ, ◌+◌, ◌-◌, Bool, true, false, not, ◌&&◌, List, [], ◌∷◌, ◌++◌, Option, none, some, Bytes,
  bytes_eq, bytes_beq, ◌==◌, if◌then◌else◌, any, filter, find, is_empty, length, Result, ok, err,
  ◌>>=◌, count_if, Map,
}
use global_egress.Pool.State.{
  Spec, Session, SlotState, Pool, Error, no_relay_slots, non_relay_slot, empty_slot_id,
  duplicate_slot, slot_collision, closed,
}
use global_egress.Pool.Budget.{update_slots}
use global_egress.Pool.Setup.{is_relay, new_slot, has_id, sort_slots}

pub record RelayReconcileResult : Type 0 where
  pub added : ℕ
  pub removed : ℕ
  pub retained : ℕ

abbrev pub has_spec : Bytes → List Spec → Bool
has_spec id = any (λ spec. spec.id == id)

-- The loop over the new specs, before the pool is locked.
unfoldable pub check_specs : List Spec → List Spec → Result Error (Unit {0})
unfolding bytes_beq
check_specs [] seen = ok tt
check_specs (spec ∷ specs) seen =
    let rest = check_specs specs (spec ∷ seen) in
    if not (is_relay spec)
    then err non_relay_slot
    else if is_empty spec.id
    then err empty_slot_id
    else if has_spec spec.id seen
    then err duplicate_slot
    else rest

abbrev pub slot_of : Bytes → List SlotState → Option SlotState
slot_of id = find (λ s. s.spec.id == id)

abbrev pub not_relay : SlotState → Bool
not_relay s = not (is_relay s.spec)

abbrev pub respec : Spec → SlotState → SlotState
respec spec s = record s { spec = spec }

-- The new slots for the specs: a state that is there is kept, with the new spec. `touched` are the
-- pool's own slots, whose specs are replaced on the way, also when a later spec is refused.
unfoldable pub relay_slots :
    List Spec → List SlotState → List SlotState → List SlotState × Result Error (List SlotState)
unfolding bytes_beq update_slots
relay_slots [] slots touched = (touched, ok [])
relay_slots (spec ∷ specs) slots touched =
    let (fresh_touched, fresh) = relay_slots specs slots touched in
    let (kept_touched, kept) =
      relay_slots specs slots (update_slots spec.id (respec spec) touched) in
    elim (slot_of spec.id slots) [
      | none ↦ (fresh_touched, fresh >>= λ rest. ok (new_slot spec ∷ rest))
      | some s ↦
          if not_relay s
          then (touched, err slot_collision)
          else (kept_touched, kept >>= λ rest. ok (respec spec s ∷ rest))
    ]

abbrev pub keep_sessions : List SlotState → Map Bytes Session → Map Bytes Session
keep_sessions slots = filter (λ (name, sess). has_id sess.slot_id slots)

abbrev pub count_retained : List Spec → List SlotState → ℕ
count_retained specs slots = count_if (λ spec. has_id spec.id slots) specs

abbrev pub count_relays : List SlotState → ℕ
count_relays = count_if (λ s. is_relay s.spec)

abbrev pub reconciled : List Spec → List SlotState → Pool → Pool × Result Error RelayReconcileResult
reconciled specs relays p =
    let slots = sort_slots (relays ++ filter not_relay p.slots) in
    let retained = count_retained specs p.slots in
    (
      record p { slots = slots; sessions = keep_sessions slots p.sessions },
      ok (record {
        added = length specs - retained;
        removed = count_relays p.slots - retained;
        retained = retained;
      }),
    )

-- ReconcileRelaySlots
unfoldable pub reconcile_relay_slots : List Spec → Pool → Pool × Result Error RelayReconcileResult
reconcile_relay_slots specs p =
    if is_empty specs then (p, err no_relay_slots) else elim (check_specs specs []) [
      | err e ↦ (p, err e)
      | ok u ↦
          if p.closing
          then (p, err closed)
          else let (touched, built) = relay_slots specs p.slots p.slots in
            elim built [
              | err e ↦ (record p { slots = touched }, err e)
              | ok relays ↦ reconciled specs relays p
            ]
    ]
