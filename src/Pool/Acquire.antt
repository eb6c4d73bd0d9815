-- ===== src/Pool/Acquire.antt =====
-- Acquire, Release and the failure of a slot in internal/pool/pool.go.
pub mod Backoff
pub mod Balance
use global_egress.Shared.{
  ℕ, zero, suc, ◌+◌, ◌-◌, ◌*◌, ◌%◌, ◌^◌, ◌&&◌, Bool, true, false, not, List, [], ◌∷◌, Option, none,
  some, Bytes, bytes_eq, nat_eq, if◌then◌else◌, ltb, Result, ok, err, lookup, insert, delete,
  is_empty, or_default, u64, min, codes, to_lower, Addr,
}
use global_egress.Policy.{Policy}
use global_egress.Pool.State.{SlotState, Pool, Error, exhausted, exhausted_after}
use global_egress.Pool.Eligible.{needs_no_tunnel}
use global_egress.Pool.Budget.{update_slot, update_slots, close_slot}
use global_egress.Pool.Reserve.{commit_acquisition, rollback_acquisition, bind_session}
use global_egress.Pool.Pick.{Picked, find_slot, pick}

-- Nanoseconds.
abbrev pub minutes : ℕ → ℕ
minutes n = n * 60_000_000_000

-- `now.Add(min(d, max))`, where a `d` past the int64 range has wrapped to a negative duration.
unfoldable pub back_off : ℕ → ℕ → ℕ → ℕ
back_off now max d =
    let wrapped = d % 2 ^ 64 in
    if ltb wrapped (2 ^ 63) then now + min wrapped max else now - (2 ^ 64 - wrapped)

-- The backoff doubles with each failure in a row, up to five times, and is at most 30 minutes.
unfoldable pub fail_slot : ℕ → Error → ℕ → SlotState → SlotState
unfolding back_off close_slot
fail_slot base e now s =
    let doubled = base * 2 ^ min s.failures 5 in
    close_slot (record s {
      failures = s.failures + 1;
      last_error = some e;
      disabled_until = back_off now (minutes 30) doubled;
    })

-- noteFailure
unfoldable pub note_failure : Bytes → Error → ℕ → Pool → Pool
unfolding fail_slot update_slots
note_failure id e now p = record (update_slot id (fail_slot p.opts.failure_backoff e now) p) {
  stat_failures = u64 (p.stat_failures + 1);
}

-- dropSession
unfoldable pub drop_session : Bytes → Pool → Pool
drop_session name p = record p { sessions = delete name p.sessions }

-- recordAcquisitionLocked
unfoldable pub record_acquisition : Bytes → Pool → Pool
unfolding to_lower
record_acquisition country p =
    let lowered = to_lower country in
    let key : Bytes = if is_empty lowered then codes "unknown" else lowered in
    let count = or_default (lookup key p.stat_acquired_by_country) 0 in
    record p {
      stat_acquired = u64 (p.stat_acquired + 1);
      stat_acquired_by_country = insert key (u64 (count + 1)) p.stat_acquired_by_country;
    }

pub record Lease : Type 0 where
  pub slot : Bytes
  pub entry : Bytes
  pub chained : Bool
  pub public_ip : Addr
  pub session : Bytes
  pub released : Bool

unfoldable pub start_lease : ℕ → SlotState → SlotState
start_lease now s = record s {
  leases = s.leases + 1;
  last_used = now;
  failures = 0;
  last_error = none;
}

-- The success of one attempt: the reservation becomes a lease.
unfoldable pub commit : Policy → Picked → ℕ → Pool → Pool
unfolding commit_acquisition start_lease bind_session record_acquisition update_slots
commit pol x now p =
    let q = update_slot x.slot.spec.id (start_lease now) (commit_acquisition x.reservation p).0 in
    record_acquisition x.slot.spec.country
      (bind_session pol x.slot.spec.id now (record q { leased = q.leased + 1 }))

-- The address that the slot has by now; a slot's spec stays as it was picked.
abbrev current_ip : SlotState → Option SlotState → Addr
current_ip picked none = picked.public_ip
current_ip picked (some s) = s.public_ip

unfoldable pub lease_of : Policy → Picked → Bytes → Pool → Lease
lease_of pol x entry p = record {
  slot = x.slot.spec.id;
  entry = entry;
  chained = needs_no_tunnel x.slot.spec.kind;
  public_ip = current_ip x.slot (find_slot x.slot.spec.id p.slots);
  session = pol.session;
  released = false;
}

-- The failure of one attempt.
unfoldable pub give_up : Policy → Picked → Error → ℕ → Pool → Pool
unfolding rollback_acquisition note_failure drop_session
give_up pol x e now p =
    let failed = note_failure x.slot.spec.id e now (rollback_acquisition x.reservation p) in
    if x.sticky && not (is_empty pol.session) then drop_session pol.session failed else failed

-- What one attempt meets: its time and random number, what `ensureDialer` does to the pool and
-- returns (the lock is free meanwhile, so other requests are part of it), and the time after it.
pub record Attempt : Type 0 where
  pub at : ℕ
  pub draw : ℕ
  pub ensure_dialer : Bytes → Pool → Pool × Result Error Bytes
  pub settled_at : ℕ

-- The loop of Acquire over the attempts that are left, with the error of the last one.
unfoldable pub acquire_loop :
    List Attempt → Policy → Bytes → Option Error → Pool → Pool × Result Error Lease
acquire_loop [] pol target none p = (p, err exhausted)
acquire_loop [] pol target (some e) p = (p, err (exhausted_after e))
acquire_loop (a ∷ rest) pol target last p =
    let (q, picked) = pick pol target a.at a.draw p in
    elim picked [
      | err e ↦ (q, err (or_default last e))
      | ok x ↦
          let (q', dialed) = a.ensure_dialer x.slot.spec.id q in
          elim dialed [
            | ok entry ↦ (commit pol x a.settled_at q', ok (lease_of pol x entry q'))
            | err e ↦ acquire_loop rest pol target (some e) (give_up pol x e a.settled_at q')
          ]
    ]

unfoldable pub first_attempts : ℕ → (ℕ → Attempt) → List Attempt
first_attempts zero attempt = []
first_attempts (suc n) attempt = attempt zero ∷ first_attempts n (λ k. attempt (suc k))

-- Acquire: `attempt k` is what the attempt number k meets.
unfoldable pub acquire : (ℕ → Attempt) → Policy → Bytes → Pool → Pool × Result Error Lease
acquire attempt pol target p =
    acquire_loop (first_attempts p.opts.dial_attempts attempt) pol target none p

unfoldable pub end_lease : ℕ → SlotState → SlotState
end_lease now s = record s { leases = s.leases - 1; last_used = now }

-- Lease.Release
unfoldable pub release_lease : Lease → ℕ → Pool → Pool × Lease
unfolding end_lease update_slots
release_lease l now p =
    let q = update_slot l.slot (end_lease now) (record p { leased = p.leased - 1 }) in
    if l.released then (p, l) else (q, record l { released = true })
