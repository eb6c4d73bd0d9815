-- ===== src/Pool/State.antt =====
-- The data of internal/pool/pool.go, spec.go and entry.go. A time is a number of nanoseconds, 0 for
-- the zero `time.Time`; a duration is one too, and a negative one is given as 0.
use global_egress.Shared.{ℕ, Bool, List, Option, Bytes, Addr, Map}

-- spec.go: how a slot reaches the internet.
pub data Kind : Type 0 where
  wire_guard relay_socks direct_socks : Kind

pub record Spec : Type 0 where
  pub id : Bytes
  pub country : Bytes
  pub city : Bytes
  pub provider : Bytes
  pub rotating : Bool
  pub kind : Kind
  pub endpoint : Bytes  -- WG.Endpoint
  pub socks_addr : Bytes

-- The options that the operations below read, after `applyDefaults`.
pub record Options : Type 0 where
  pub max_active : ℕ
  pub max_conns_per_exit : ℕ
  pub max_concurrent_conns : ℕ
  pub session_ttl : ℕ
  pub max_session_ttl : ℕ
  pub max_sessions : ℕ
  pub batch_ttl : ℕ
  pub max_batch_ttl : ℕ
  pub max_unique_batches : ℕ
  pub cooldown : ℕ
  pub preferred_ttl : ℕ
  pub preferred_max : ℕ
  pub dial_attempts : ℕ
  pub failure_backoff : ℕ
  pub new_tunnel_budget : ℕ
  pub new_tunnel_window : ℕ
  pub ip_refresh_interval : ℕ

-- The errors of the package, and the ones that come from outside by their number.
pub data Error : Type 0 where
  no_candidate exhausted capacity tunnel_budget busy batch_full policy_limit session_full : Error
  identity_mismatch unknown_session unknown_slot missing_target no_stable_ip no_measured_ip : Error
  closed no_relay_slots non_relay_slot empty_slot_id duplicate_slot slot_collision : Error
  dial_failed : ℕ → Error
  cancelled : Error
  exhausted_after : Error → Error

-- `tunnel` is whether the pointer is set; `opening` whether an Open is in flight.
pub record SlotState : Type 0 where
  pub spec : Spec
  pub tunnel : Bool
  pub opening : Bool
  pub opened_at : ℕ
  pub last_used : ℕ
  pub leases : ℕ
  pub pending_leases : ℕ
  pub public_ip : Addr
  pub ip_checked_at : ℕ
  pub failures : ℕ
  pub last_error : Option Error
  pub disabled_until : ℕ
  pub cooldowns : Map Bytes ℕ
  pub bytes_sent : ℕ
  pub bytes_received : ℕ

pub record Session : Type 0 where
  pub slot_id : Bytes
  pub expires_at : ℕ

-- One last-good slot for a destination.
pub record PreferredExit : Type 0 where
  pub slot_id : Bytes
  pub public_ip : Addr
  pub expires_at : ℕ

-- A unique-IP batch. `ident` stands for the pointer: it tells two batches of one name apart.
pub record Batch : Type 0 where
  pub ident : ℕ
  pub used_ips : Map Addr ℕ
  pub burn_seq : Map Addr ℕ
  pub next_burn : ℕ
  pub used_slots : List Bytes
  pub slot_ips : Map Bytes (List Addr)
  pub expires_at : ℕ

pub record BatchReservation : Type 0 where
  pub name : Bytes
  pub batch : ℕ
  pub slot_id : Bytes

pub record Reservation : Type 0 where
  pub batch : Option BatchReservation
  pub session : Bytes
  pub slot : Bytes
  pub active : Bool

-- entry.go: an entry tunnel, with what it learned about the way to each exit country.
pub record EntryState : Type 0 where
  pub id : Bytes
  pub country : Bytes
  pub tunnel : Bool
  pub opening : Bool
  pub failures : ℕ
  pub last_error : Option Error
  pub disabled_until : ℕ
  pub opened_at : ℕ
  pub bytes_sent : ℕ
  pub bytes_received : ℕ
  pub latency : Map Bytes ℕ
  pub samples : Map Bytes ℕ

abbrev pub IpCooldowns : Type 0
IpCooldowns = Map Bytes (Map Addr ℕ)

-- `slots` holds the states of `p.slots` in the order of `p.order`; `next_batch` is the next `ident`.
pub record Pool : Type 0 where
  pub opts : Options
  pub slots : List SlotState
  pub sessions : Map Bytes Session
  pub pending_sessions : Map Bytes ℕ
  pub batches : Map Bytes Batch
  pub next_batch : ℕ
  pub preferred : Map Bytes (List PreferredExit)
  pub ip_cooldowns : IpCooldowns
  pub entries : List EntryState
  pub opens : List ℕ
  pub pending_tunnel_opens : ℕ
  pub probe_tunnels : ℕ
  pub closing : Bool
  pub leased : ℕ
  pub pending_leases : ℕ
  pub stat_acquired : ℕ
  pub stat_busy : ℕ
  pub stat_sent : ℕ
  pub stat_received : ℕ
  pub stat_rotated : ℕ
  pub stat_reports : ℕ
  pub stat_failures : ℕ
  pub stat_acquired_by_country : Map Bytes ℕ
