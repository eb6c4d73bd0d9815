-- ===== src/Pool/Eligible.antt =====
-- eligibleLocked of internal/pool/pool.go: every filter of a selection that needs no input or output.
pub mod Admits
pub mod Serves
use global_egress.Shared.{
  ℕ, ◌+◌, ◌||◌, ◌&&◌, Bool, true, false, not, List, [], ◌∷◌, Option, none, some, Bytes, bytes_eq,
  Addr, addr_eq, nat_eq, is_empty, is_valid, is_some, if◌then◌else◌, ltb, leb, lookup, any,
  equal_fold, ◌==◌,
}
use global_egress.Policy.{Policy}
use global_egress.Pool.State.{
  SlotState, Pool, Options, Batch, Kind, wire_guard, relay_socks, direct_socks, IpCooldowns,
}
use global_egress.Pool.Batch.{contains}
use global_egress.Pool.Cooldowns.{cooling_down, ip_cooling_down}

unfoldable pub contains_fold : List Bytes → Bytes → Bool
unfolding equal_fold
contains_fold list value =
    if is_empty value then false else any (λ item. equal_fold item value) list

-- The slot is one that the client named, and is not backed off.
unfoldable pub is_named : SlotState → Policy → ℕ → Bool
unfolding contains_fold
is_named s pol now =
    not (ltb now s.disabled_until)
    && (is_empty pol.slot || s.spec.id == pol.slot)
    && (is_empty pol.provider || s.spec.provider == pol.provider)
    && (is_empty pol.countries || contains_fold pol.countries s.spec.country)
    && (is_empty pol.cities || contains_fold pol.cities s.spec.city)

-- An exit at its connection limit is no candidate.
unfoldable pub has_room : Options → SlotState → Bool
has_room o s = o.max_conns_per_exit == 0 || ltb (s.leases + s.pending_leases) o.max_conns_per_exit

unfoldable pub requires_fresh_ip : Policy → Bool
requires_fresh_ip pol = not (is_empty pol.unique_batch) || not (is_empty pol.exclude_ips)

unfoldable pub ip_is_fresh : Options → SlotState → ℕ → Bool
ip_is_fresh o s now =
    is_valid s.public_ip
    && not (s.ip_checked_at == 0)
    && ltb now (s.ip_checked_at + o.ip_refresh_interval)

-- The address is known well enough for the policy, and is not one that the client refuses.
unfoldable pub has_identity : Options → SlotState → Policy → ℕ → Bool
unfolding requires_fresh_ip ip_is_fresh contains
has_identity o s pol now =
    not (s.spec.rotating && requires_fresh_ip pol)
    && not (requires_fresh_ip pol && not (ip_is_fresh o s now))
    && not (contains s.public_ip pol.exclude_ips)

unfoldable pub not_burned : Batch → SlotState → Bool
unfolding contains
not_burned b s =
    not (contains s.spec.id b.used_slots) && not (is_some (lookup s.public_ip b.used_ips))

-- A live batch refuses the slots and the addresses that it has used.
unfoldable pub batch_allows : Option Batch → SlotState → ℕ → Bool
unfolding not_burned
batch_allows none s now = true
batch_allows (some b) s now = if ltb now b.expires_at then not_burned b s else true

unfoldable pub allowed : Pool → SlotState → Policy → ℕ → Bool
unfolding has_room has_identity batch_allows
allowed p s pol now =
    has_room p.opts s
    && has_identity p.opts s pol now
    && (is_empty pol.unique_batch || batch_allows (lookup pol.unique_batch p.batches) s now)

-- `m` is `p.ip_cooldowns` as the calls before this one left it: the test deletes an entry of it.
unfoldable pub eligible : Pool → IpCooldowns → SlotState → Policy → Bytes → ℕ → Bool × IpCooldowns
unfolding is_named allowed cooling_down ip_cooling_down
eligible p m s pol target now =
    let (cool, m') = ip_cooling_down target s.public_ip now m in
    if not (is_named s pol now)
    then (false, m)
    else if cooling_down s target now
    then (false, m)
    else if cool
    then (false, m')
    else (allowed p s pol now, m')

-- eligibleIgnoringBatchLocked and eligiblePreferredLocked
abbrev pub without_batch : Policy → Policy
without_batch pol = record pol { unique_batch = [] }

unfoldable pub needs_no_tunnel : Kind → Bool
needs_no_tunnel wire_guard = false
needs_no_tunnel relay_socks = true
needs_no_tunnel direct_socks = true

-- ready: the slot can serve with no tunnel to open.
unfoldable pub ready : SlotState → Bool
unfolding needs_no_tunnel
ready s = needs_no_tunnel s.spec.kind || s.tunnel
