-- ===== src/Pool/Reserve.antt =====
-- The reservations of internal/pool/pool.go: what a selection holds between `pick` and the lease.
use global_egress.Shared.{
  ℕ, ◌+◌, ◌-◌, true, false, not, [], Option, none, some, Bytes, bytes_eq, nat_eq, if◌then◌else◌,
  ltb, leb, length, ◌==◌, Result, ok, err, lookup, insert, delete, is_empty, is_some, or_default,
}
use global_egress.Policy.{Policy}
use global_egress.Pool.State.{
  SlotState, Pool, Batch, BatchReservation, Reservation, Session, Error, batch_full, session_full,
}
use global_egress.Pool.Batch.{reserve, release, new_batch}
use global_egress.Pool.Budget.{update_slot, update_slots}

-- sessionTTL
unfoldable pub session_ttl : Pool → Policy → ℕ
session_ttl p pol = if ltb 0 pol.ttl then pol.ttl else p.opts.session_ttl

-- batchTTL
unfoldable pub batch_ttl : Pool → Policy → ℕ
batch_ttl p pol = if ltb 0 pol.batch_ttl then pol.batch_ttl else p.opts.batch_ttl

-- bindSession
unfoldable pub bind_session : Policy → Bytes → ℕ → Pool → Pool
unfolding session_ttl
bind_session pol slot_id now p =
    let binding : Session = record { slot_id = slot_id; expires_at = now + session_ttl p pol } in
    if is_empty pol.session
    then p
    else record p { sessions = insert pol.session binding p.sessions }

-- reserveSessionLocked: the name whose pending count went up, or the empty one.
unfoldable pub reserve_session : Policy → Pool → Pool × Result Error Bytes
reserve_session pol p =
    let pending = or_default (lookup pol.session p.pending_sessions) 0 in
    if is_empty pol.session
    then (p, ok [])
    else if is_some (lookup pol.session p.sessions)
    then (p, ok [])
    else if ltb 0 pending
    then (
      record p { pending_sessions = insert pol.session (pending + 1) p.pending_sessions },
      ok pol.session,
    )
    else if leb p.opts.max_sessions (length p.sessions + length p.pending_sessions)
    then (p, err session_full)
    else (record p { pending_sessions = insert pol.session 1 p.pending_sessions }, ok pol.session)

-- releasePendingSessionLocked
unfoldable pub release_pending_session : Bytes → Pool → Pool
release_pending_session name p =
    let pending = or_default (lookup name p.pending_sessions) 0 in
    if is_empty name
    then p
    else if ltb 1 pending
    then record p { pending_sessions = insert name (pending - 1) p.pending_sessions }
    else record p { pending_sessions = delete name p.pending_sessions }

-- The batch of a name that a reservation goes on with.
unfoldable pub current_batch : Option Batch → ℕ → Option Batch
current_batch none now = none
current_batch (some b) now = if ltb b.expires_at now then none else some b

unfoldable pub reserve_in : Policy → SlotState → ℕ → Batch → Pool → Pool
unfolding reserve batch_ttl
reserve_in pol s now b p =
    let held =
      reserve s.spec.id s.public_ip now (record b { expires_at = now + batch_ttl p pol }) in
    record p { batches = insert pol.unique_batch held p.batches }

abbrev batch_reservation : Policy → SlotState → ℕ → Option BatchReservation
batch_reservation pol s ident =
    some (record { name = pol.unique_batch; batch = ident; slot_id = s.spec.id })

-- reserveBatchLocked
unfoldable pub reserve_batch :
    Policy → SlotState → ℕ → Pool → Pool × Result Error (Option BatchReservation)
unfolding current_batch reserve_in batch_ttl new_batch
reserve_batch pol s now p =
    let q = record p { batches = delete pol.unique_batch p.batches } in
    let fresh = new_batch p.next_batch (now + batch_ttl p pol) in
    let created = record q { next_batch = p.next_batch + 1 } in
    if is_empty pol.unique_batch
    then (p, ok none)
    else elim (current_batch (lookup pol.unique_batch p.batches) now) [
      | some b ↦ (reserve_in pol s now b p, ok (batch_reservation pol s b.ident))
      | none ↦
          if leb q.opts.max_unique_batches (length q.batches)
          then (q, err batch_full)
          else (reserve_in pol s now fresh created, ok (batch_reservation pol s fresh.ident))
    ]

unfoldable pub add_pending : SlotState → SlotState
add_pending s = record s { pending_leases = s.pending_leases + 1 }

-- The guarded `pendingLeases--`.
unfoldable pub drop_pending : SlotState → SlotState
drop_pending s = record s { pending_leases = s.pending_leases - 1 }

-- The part of reserveAcquisitionLocked after its session.
unfoldable pub reserve_rest :
    Policy → SlotState → ℕ → Bytes → Pool → Pool × Result Error Reservation
unfolding reserve_batch release_pending_session add_pending update_slots
reserve_rest pol s now session p =
    let (q, batch) = reserve_batch pol s now p in
    elim batch [
      | err e ↦ (release_pending_session session q, err e)
      | ok b ↦ (
        record (update_slot s.spec.id add_pending q) { pending_leases = q.pending_leases + 1 },
        ok (record { batch = b; session = session; slot = s.spec.id; active = true }),
      )
    ]

-- reserveAcquisitionLocked
unfoldable pub reserve_acquisition : Policy → SlotState → ℕ → Pool → Pool × Result Error Reservation
unfolding reserve_session reserve_rest
reserve_acquisition pol s now p =
    let (q, session) = reserve_session pol p in
    elim session [ err e ↦ (q, err e) | ok name ↦ reserve_rest pol s now name q ]

-- commitAcquisitionLocked, with the reservation that it marks as spent.
unfoldable pub commit_acquisition : Reservation → Pool → Pool × Reservation
unfolding release_pending_session drop_pending update_slots
commit_acquisition r p =
    let q = update_slot r.slot drop_pending (release_pending_session r.session p) in
    if not r.active
    then (p, r)
    else (record q { pending_leases = q.pending_leases - 1 }, record r { active = false })

-- The batch is released if the name still stands for the batch of the reservation.
unfoldable pub release_held : BatchReservation → Batch → Pool → Pool
unfolding release
release_held r b p =
    let freed = release r.slot_id b in
    if not (b.ident == r.batch)
    then p
    else if is_empty freed.used_slots
    then record p { batches = delete r.name p.batches }
    else record p { batches = insert r.name freed p.batches }

-- rollbackBatchLocked
unfoldable pub rollback_batch : Option BatchReservation → Pool → Pool
unfolding release_held
rollback_batch none p = p
rollback_batch (some r) p = elim (lookup r.name p.batches) [
  | none ↦ p
  | some b ↦ release_held r b p
]

-- rollbackAcquisition
unfoldable pub rollback_acquisition : Reservation → Pool → Pool
unfolding commit_acquisition rollback_batch
rollback_acquisition r p = rollback_batch r.batch (commit_acquisition r p).0
