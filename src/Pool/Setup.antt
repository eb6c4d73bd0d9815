-- ===== src/Pool/Setup.antt =====
-- The construction of a pool: applyDefaults and NewWithSpecs in internal/pool/pool.go, and the
-- constructors of specs in spec.go.
pub mod Ascending
pub mod Fresh
use global_egress.Shared.{
  ℕ, ◌*◌, Bool, true, false, not, ◌&&◌, List, [], ◌∷◌, map, none, Bytes, bytes_eq, bytes_beq,
  nat_eq, ◌==◌, codes, if◌then◌else◌, any, is_empty, bytes_leb, Result, ok, err, ◌>>=◌, zero_addr,
}
use global_egress.Pool.State.{
  Kind, wire_guard, relay_socks, direct_socks, Spec, Options, SlotState, EntryState, Pool,
}

abbrev or_else : ℕ → ℕ → ℕ
or_else n default = if n == 0 then default else n

abbrev pub second : ℕ
second = 1000000000

-- applyDefaults; a value that is not positive is given as 0.
unfoldable pub apply_defaults : Options → Options
apply_defaults o =
    let batch_ttl = or_else o.batch_ttl (900 * second) in
    record o {
      session_ttl = or_else o.session_ttl (600 * second);
      max_session_ttl = or_else o.max_session_ttl (86400 * second);
      max_sessions = or_else o.max_sessions 10000;
      batch_ttl = batch_ttl;
      max_batch_ttl = or_else o.max_batch_ttl batch_ttl;
      max_unique_batches = or_else o.max_unique_batches 10000;
      cooldown = or_else o.cooldown (900 * second);
      preferred_ttl = or_else o.preferred_ttl (1800 * second);
      preferred_max = or_else o.preferred_max 8;
      dial_attempts = or_else o.dial_attempts 3;
      failure_backoff = or_else o.failure_backoff (30 * second);
      new_tunnel_window = or_else o.new_tunnel_window (600 * second);
      ip_refresh_interval = or_else o.ip_refresh_interval (21600 * second);
    }

-- The slot that catalog.go reads from a WireGuard configuration, as far as the pool asks for it.
pub record WireGuardSlot : Type 0 where
  pub id : Bytes
  pub country : Bytes
  pub city : Bytes
  pub endpoint : Bytes

pub record ExitSpec : Type 0 where
  pub id : Bytes
  pub country : Bytes
  pub city : Bytes
  pub provider : Bytes
  pub socks_addr : Bytes

-- SpecsFromBundle
unfoldable pub specs_from_bundle : List WireGuardSlot → List Spec
specs_from_bundle = map (λ slot. record {
  id = slot.id;
  country = slot.country;
  city = slot.city;
  provider = codes "mullvad";
  rotating = false;
  kind = wire_guard;
  endpoint = slot.endpoint;
  socks_addr = [];
})

-- SpecsFromExits
unfoldable pub specs_from_exits : List ExitSpec → List Spec
specs_from_exits = map (λ exit. record {
  id = exit.id;
  country = exit.country;
  city = exit.city;
  provider = if is_empty exit.provider then codes "mullvad" else exit.provider;
  rotating = false;
  kind = relay_socks;
  endpoint = [];
  socks_addr = exit.socks_addr;
})

-- Target
abbrev pub target_of : Spec → Bytes
target_of s = elim s.kind [
  | wire_guard ↦ s.endpoint
  | relay_socks ↦ s.socks_addr
  | direct_socks ↦ s.socks_addr
]

abbrev pub is_relay : Spec → Bool
is_relay s = elim s.kind [ relay_socks ↦ true | wire_guard ↦ false | direct_socks ↦ false ]

-- The state of a slot that was never used.
abbrev pub new_slot : Spec → SlotState
new_slot spec = record {
  spec = spec;
  tunnel = false;
  opening = false;
  opened_at = 0;
  last_used = 0;
  leases = 0;
  pending_leases = 0;
  public_ip = zero_addr;
  ip_checked_at = 0;
  failures = 0;
  last_error = none;
  disabled_until = 0;
  cooldowns = [];
  bytes_sent = 0;
  bytes_received = 0;
}

abbrev pub new_entry : WireGuardSlot → EntryState
new_entry slot = record {
  id = slot.id;
  country = slot.country;
  tunnel = false;
  opening = false;
  failures = 0;
  last_error = none;
  disabled_until = 0;
  opened_at = 0;
  bytes_sent = 0;
  bytes_received = 0;
  latency = [];
  samples = [];
}

-- The slots in the order of their IDs: sort.Strings(p.order).
unfoldable pub insert_slot : SlotState → List SlotState → List SlotState
unfolding bytes_leb
insert_slot s [] = s ∷ []
insert_slot s (t ∷ ts) =
    let rest = insert_slot s ts in if bytes_leb s.spec.id t.spec.id then s ∷ t ∷ ts else t ∷ rest

unfoldable pub sort_slots : List SlotState → List SlotState
unfolding insert_slot
sort_slots [] = []
sort_slots (s ∷ ss) = insert_slot s (sort_slots ss)

abbrev pub has_id : Bytes → List SlotState → Bool
has_id id = any (λ s. s.spec.id == id)

pub data SetupError : Type 0 where
  no_slots no_entry : SetupError
  duplicate_id : Bytes → SetupError

-- The loop over the specs: `slots` are the states so far.
unfoldable pub add_slots : List Spec → List SlotState → Result SetupError (List SlotState)
unfolding bytes_beq
add_slots [] slots = ok slots
add_slots (spec ∷ specs) slots =
    let rest = add_slots specs (new_slot spec ∷ slots) in
    if has_id spec.id slots then err (duplicate_id spec.id) else rest

abbrev pub new_pool : Options → List SlotState → List WireGuardSlot → Pool
new_pool opts slots entries = record {
  opts = opts;
  slots = slots;
  sessions = [];
  pending_sessions = [];
  batches = [];
  next_batch = 0;
  preferred = [];
  ip_cooldowns = [];
  entries = map new_entry entries;
  opens = [];
  pending_tunnel_opens = 0;
  probe_tunnels = 0;
  closing = false;
  leased = 0;
  pending_leases = 0;
  stat_acquired = 0;
  stat_busy = 0;
  stat_sent = 0;
  stat_received = 0;
  stat_rotated = 0;
  stat_reports = 0;
  stat_failures = 0;
  stat_acquired_by_country = [];
}

-- NewWithSpecs
unfoldable pub new_with_specs : List Spec → List WireGuardSlot → Options → Result SetupError Pool
new_with_specs specs entries opts =
    if is_empty specs
    then err no_slots
    else if any is_relay specs && is_empty entries
    then err no_entry
    else add_slots specs [] >>= λ slots.
        ok (new_pool (apply_defaults opts) (sort_slots slots) entries)

-- New
unfoldable pub new : List WireGuardSlot → Options → Result SetupError Pool
unfolding new_with_specs
new slots opts =
    if is_empty slots then err no_slots else new_with_specs (specs_from_bundle slots) [] opts
