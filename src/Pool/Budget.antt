-- ===== src/Pool/Budget.antt =====
-- The new-tunnel rate budget and the active-tunnel budget of internal/pool/pool.go.
pub mod Window
use global_egress.Shared.{
  ℕ, ◌+◌, ◌-◌, ◌||◌, ◌&&◌, Bool, true, false, not, List, [], ◌∷◌, ◌++◌, Option, none, some, Bytes,
  bytes_eq, nat_eq, map, if◌then◌else◌, ltb, leb, length, count_if, ◌==◌, Result, ok, err,
}
use global_egress.Pool.State.{SlotState, EntryState, Pool, Error, tunnel_budget, capacity}

-- The times of the window that ends now; `opens` is in the order of the openings.
unfoldable pub in_window : ℕ → ℕ → List ℕ → List ℕ
in_window window now [] = []
in_window window now (at ∷ opens) =
    let rest = in_window window now opens in if ltb now (at + window) then at ∷ opens else rest

-- pruneOpensLocked
unfoldable pub prune_opens : ℕ → Pool → Pool
unfolding in_window
prune_opens now p = record p { opens = in_window p.opts.new_tunnel_window now p.opens }

-- tunnelBudgetAvailableLocked
unfoldable pub tunnel_budget_available : ℕ → Pool → Pool × Bool
unfolding prune_opens
tunnel_budget_available now p =
    let q = prune_opens now p in
    if p.opts.new_tunnel_budget == 0
    then (p, true)
    else (q, ltb (length q.opens + q.pending_tunnel_opens) q.opts.new_tunnel_budget)

-- reserveTunnelOpenLocked
unfoldable pub reserve_tunnel_open : ℕ → Pool → Pool × Result Error (Unit {0})
unfolding tunnel_budget_available
reserve_tunnel_open now p =
    let (q, available) = tunnel_budget_available now p in
    if available
    then (record q { pending_tunnel_opens = q.pending_tunnel_opens + 1 }, ok tt)
    else (q, err tunnel_budget)

-- commitTunnelOpen: the contact is charged before the handshake.
unfoldable pub commit_tunnel_open : ℕ → Pool → Pool
unfolding prune_opens
commit_tunnel_open now p =
    let q = prune_opens now (record p { pending_tunnel_opens = p.pending_tunnel_opens - 1 }) in
    record q { opens = q.opens ++ now ∷ [] }

unfoldable pub rollback_tunnel_open : Pool → Pool
rollback_tunnel_open p = record p { pending_tunnel_opens = p.pending_tunnel_opens - 1 }

-- noteTunnelOpen
unfoldable pub note_tunnel_open : ℕ → Pool → Pool
unfolding prune_opens
note_tunnel_open now p = let q = prune_opens now p in record q { opens = q.opens ++ now ∷ [] }

-- The state of a slot is changed through its pointer; slot IDs are unique in the pool.
unfoldable pub update_slots : Bytes → (SlotState → SlotState) → List SlotState → List SlotState
update_slots id f [] = []
update_slots id f (s ∷ ss) = (if s.spec.id == id then f s else s) ∷ update_slots id f ss

abbrev pub update_slot : Bytes → (SlotState → SlotState) → Pool → Pool
update_slot id f p = record p { slots = update_slots id f p.slots }

-- closeLocked: the tunnel itself is closed by a goroutine of its own.
unfoldable pub close_slot : SlotState → SlotState
close_slot s = if s.tunnel then record s { tunnel = false; opened_at = 0 } else s

unfoldable pub open_count : Pool → ℕ
open_count p =
    count_if (λ s. s.tunnel || s.opening) p.slots
    + count_if (λ e. e.tunnel || e.opening) p.entries
    + p.probe_tunnels

unfoldable pub is_idle : SlotState → Bool
is_idle s = s.tunnel && s.leases + s.pending_leases == 0

-- Of two idle slots, the one used longer ago; the loop's order decides a tie.
unfoldable pub older : SlotState → Option SlotState → Option SlotState
older s none = some s
older s (some v) = if ltb s.last_used v.last_used then some s else some v

-- The least recently used idle tunnel.
unfoldable pub victim : List SlotState → Option SlotState → Option SlotState
unfolding is_idle older
victim [] best = best
victim (s ∷ ss) best = victim ss (if is_idle s then older s best else best)

-- reserveCapacityLocked
unfoldable pub reserve_capacity : Pool → Pool × Result Error (Unit {0})
unfolding open_count victim update_slots close_slot
reserve_capacity p =
    if p.opts.max_active == 0 || ltb (open_count p) p.opts.max_active
    then (p, ok tt)
    else elim (victim p.slots none) [
      | none ↦ (p, err capacity)
      | some v ↦ (update_slot v.spec.id close_slot p, ok tt)
    ]
