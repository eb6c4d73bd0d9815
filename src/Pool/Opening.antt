-- ===== src/Pool/Opening.antt =====
-- ensureDialer and ensureOpen in internal/pool/pool.go: how a slot gets its tunnel. The mutex is held in
-- three sections, each a function; in between the network is at work, and other requests. The probes and
-- the sweep of idle tunnels are those of internal/pool/inventory.go.
pub mod Flights
pub mod Sound
pub mod Upkeep
pub mod Opened
pub mod Admitted
pub mod Capacity
use global_egress.Shared.{
  ◌+◌, ◌-◌, ◌&&◌, not, ltb, nat_eq, ℕ, Bool, true, false, List, [], ◌∷◌, Option, none, some, Bytes,
  bytes_eq, bytes_beq, ◌==◌, if◌then◌else◌, Result, ok, err,
}
use global_egress.Pool.State.{
  Kind, SlotState, Pool, Error, cancelled, unknown_slot, wire_guard, relay_socks, direct_socks,
}
use global_egress.Pool.Budget.{
  close_slot, reserve_tunnel_open, commit_tunnel_open, rollback_tunnel_open, reserve_capacity,
  update_slots, update_slot,
}
use global_egress.Pool.Relays.{slot_of}

-- What a caller finds: a tunnel, another opener, or its turn to open.
pub data Admission : Type 0 where
  live wait admitted : Admission

abbrev pub start_opening : SlotState → SlotState
start_opening s = record s { opening = true }

abbrev pub stop_opening : SlotState → SlotState
stop_opening s = record s { opening = false }

-- The end of an Open that was tried.
abbrev pub end_opening : Bool → ℕ → SlotState → SlotState
end_opening opened now s =
    if opened then record s { opening = false; tunnel = true; opened_at = now } else stop_opening s

-- Capacity and budget are reserved, or the refusal of the one that is missing.
unfoldable pub reserve_open : Bytes → ℕ → Pool → Pool × Result Error Admission
reserve_open id now p =
    let (q, room) = reserve_capacity p in
    elim room [
      | err e ↦ (q, err e)
      | ok u ↦
          let (r, budget) = reserve_tunnel_open now q in
          elim budget [ err e ↦ (r, err e) | ok u ↦ (update_slot id start_opening r, ok admitted) ]
    ]

-- The first section; `gone` is whether the context is done. The slot is one of the pool's.
unfoldable pub admit_open : Bytes → Bool → ℕ → Pool → Pool × Result Error Admission
unfolding bytes_beq
admit_open id gone now p = elim (slot_of id p.slots) [
  | none ↦ (p, err unknown_slot)
  | some s ↦
      if s.tunnel
      then (p, ok live)
      else if s.opening
      then (p, ok wait)
      else if gone
      then (p, err cancelled)
      else reserve_open id now p
]

-- When the context is done before the relay is contacted: two sections in a row, taken as one.
unfoldable pub cancel_open : Bytes → Pool → Pool
unfolding rollback_tunnel_open update_slots
cancel_open id p = update_slot id stop_opening (rollback_tunnel_open p)

-- The last section.
unfoldable pub finish_open : Bytes → Bool → ℕ → Pool → Pool
unfolding update_slots
finish_open id opened now p = update_slot id (end_opening opened now) p

abbrev is_wire_guard : Kind → Bool
is_wire_guard wire_guard = true
is_wire_guard relay_socks = false
is_wire_guard direct_socks = false

-- What one turn of the loop meets. `waited` and `meanwhile` are what other requests do while this one
-- waits for their Open and while its own is in flight; `opened` is what Open returns.
pub record OpenTurn : Type 0 where
  pub gone : Bool
  pub at : ℕ
  pub waited : Pool → Pool
  pub gone_waiting : Bool
  pub gone_after : Bool
  pub contacted_at : ℕ
  pub opened : Result Error (Unit {0})
  pub meanwhile : Pool → Pool
  pub opened_at : ℕ

abbrev pub succeeded : Result Error (Unit {0}) → Bool
succeeded (ok u) = true
succeeded (err e) = false

-- The rest of a turn that is admitted.
unfoldable pub open_admitted : Bytes → OpenTurn → Pool → Pool × Result Error (Unit {0})
unfolding cancel_open finish_open commit_tunnel_open
open_admitted id t p = if t.gone_after then (cancel_open id p, err cancelled) else (
  finish_open id (succeeded t.opened) t.opened_at
      (t.meanwhile (commit_tunnel_open t.contacted_at p)),
  t.opened,
)

-- ensureOpen, over the turns until its context ends.
unfoldable pub ensure_open : Bytes → List OpenTurn → Pool → Pool × Result Error (Unit {0})
unfolding admit_open open_admitted
ensure_open id [] p = (p, err cancelled)
ensure_open id (t ∷ ts) p =
    let (q, admission) = admit_open id t.gone t.at p in
    let again = ensure_open id ts (t.waited q) in
    elim admission [
      | err e ↦ (q, err e)
      | ok live ↦ (q, ok tt)
      | ok wait ↦ if t.gone_waiting then (t.waited q, err cancelled) else again
      | ok admitted ↦ open_admitted id t q
    ]

-- ensureDialer, with the entry that is used; the dialer of a relay is an argument.
unfoldable pub ensure_dialer :
    (Bytes → Pool → Pool × Result Error Bytes)
    → List OpenTurn
    → SlotState
    → Pool
    → Pool × Result Error Bytes
unfolding ensure_open
ensure_dialer through_entry turns s p = elim s.spec.kind [
  | relay_socks ↦ through_entry s.spec.id p
  | direct_socks ↦ (p, ok [])
  | wire_guard ↦
      let (q, opened) = ensure_open s.spec.id turns p in
      elim opened [ err e ↦ (q, err e) | ok u ↦ (q, ok []) ]
]

-- probeDialer of internal/pool/inventory.go, for a slot with a tunnel of its own: the first section.
unfoldable pub admit_probe : Bool → ℕ → Pool → Pool × Result Error (Unit {0})
admit_probe gone now p =
    if gone
    then (p, err cancelled)
    else let (q, room) = reserve_capacity p in
      elim room [
        | err e ↦ (q, err e)
        | ok u ↦
            let (r, budget) = reserve_tunnel_open now q in
            elim budget [
              | err e ↦ (r, err e)
              | ok u ↦ (record r { probe_tunnels = r.probe_tunnels + 1 }, ok tt)
            ]
      ]

-- releaseProbeCapacity
unfoldable pub release_probe_capacity : Pool → Pool
release_probe_capacity p = record p { probe_tunnels = p.probe_tunnels - 1 }

-- The probe that is given up before the relay is contacted.
unfoldable pub cancel_probe : Pool → Pool
unfolding rollback_tunnel_open release_probe_capacity
cancel_probe p = release_probe_capacity (rollback_tunnel_open p)

-- The tunnels that housekeep closes; `timeout` is `IdleTimeout`.
unfoldable pub is_stale : ℕ → ℕ → SlotState → Bool
is_stale timeout now s =
    is_wire_guard s.spec.kind
    && s.tunnel
    && s.leases == 0
    && not (s.last_used == 0)
    && ltb timeout (now - s.last_used)

unfoldable pub close_stale : ℕ → ℕ → List SlotState → List SlotState
unfolding is_stale close_slot
close_stale timeout now [] = []
close_stale timeout now (s ∷ ss) =
    (if is_stale timeout now s then close_slot s else s) ∷ close_stale timeout now ss

-- The first loop of housekeep, after expireLocked; without a timeout nothing is closed.
unfoldable pub close_idle : ℕ → ℕ → Pool → Pool
unfolding close_stale
close_idle timeout now p =
    if timeout == 0 then p else record p { slots = close_stale timeout now p.slots }
