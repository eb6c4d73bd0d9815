-- ===== src/Examples/Data.antt =====
-- A pool of two exits with their addresses, its options, and a request for a batch.
use global_egress.Shared.{
  false, [], ◌∷◌, none, Bytes, bytes_eq, codes, Addr, zero_addr, ipv4, addr_eq, Result, ok, err,
}
use global_egress.Policy.{Policy}
use global_egress.Pool.State.{Spec, Options, SlotState, Pool, Error, relay_socks}
use global_egress.Pool.Pick.{Picked}

abbrev pub japan : Bytes
japan = codes "jp1"

abbrev pub sweden : Bytes
sweden = codes "se1"

abbrev pub a_spec : Bytes → Bytes → Spec
a_spec id country = record {
  id = id;
  country = country;
  city = [];
  provider = codes "mullvad";
  rotating = false;
  kind = relay_socks;
  endpoint = [];
  socks_addr = id;
}

abbrev pub a_slot : Spec → Addr → SlotState
a_slot spec ip = record {
  spec = spec;
  tunnel = false;
  opening = false;
  opened_at = 0;
  last_used = 0;
  leases = 0;
  pending_leases = 0;
  public_ip = ip;
  ip_checked_at = 100;
  failures = 0;
  last_error = none;
  disabled_until = 0;
  cooldowns = [];
  bytes_sent = 0;
  bytes_received = 0;
}

abbrev pub japan_ip : Addr
japan_ip = ipv4 3405803777

abbrev pub sweden_ip : Addr
sweden_ip = ipv4 3405803778

abbrev pub the_options : Options
the_options = record {
  max_active = 2;
  max_conns_per_exit = 1;
  max_concurrent_conns = 2;
  session_ttl = 600;
  max_session_ttl = 3600;
  max_sessions = 10;
  batch_ttl = 600;
  max_batch_ttl = 3600;
  max_unique_batches = 10;
  cooldown = 300;
  preferred_ttl = 600;
  preferred_max = 2;
  dial_attempts = 2;
  failure_backoff = 30;
  new_tunnel_budget = 2;
  new_tunnel_window = 50;
  ip_refresh_interval = 1000;
}

abbrev pub the_pool : Pool
the_pool = record {
  opts = the_options;
  slots =
      a_slot (a_spec japan (codes "jp")) japan_ip
      ∷ a_slot (a_spec sweden (codes "se")) sweden_ip
      ∷ [];
  sessions = [];
  pending_sessions = [];
  batches = [];
  next_batch = 0;
  preferred = [];
  ip_cooldowns = [];
  entries = [];
  opens = [];
  pending_tunnel_opens = 0;
  probe_tunnels = 0;
  closing = false;
  leased = 0;
  pending_leases = 0;
  stat_acquired = 0;
  stat_busy = 0;
  stat_sent = 0;
  stat_received = 0;
  stat_rotated = 0;
  stat_reports = 0;
  stat_failures = 0;
  stat_acquired_by_country = [];
}

-- A request for a batch of distinct addresses.
abbrev pub the_policy : Policy
the_policy = record {
  any_exit = false;
  countries = [];
  cities = [];
  slot = [];
  provider = [];
  session = [];
  ttl = 0;
  unique_batch = codes "b";
  batch_ttl = 0;
  recycle_batch = false;
  health_scope = [];
  exclude_ips = [];
}

abbrev pub example_com : Bytes
example_com = codes "example.com"

abbrev pub got : Result Error Picked → Picked → Picked
got (ok x) y = x
got (err e) y = y

abbrev pub nothing : Picked
nothing = record {
  slot = a_slot (a_spec [] []) zero_addr;
  sticky = false;
  reservation = record { batch = none; session = []; slot = []; active = false };
}
