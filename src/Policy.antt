-- ===== src/Policy.antt =====
-- internal/policy/policy.go: the selection policy that a client sends in the proxy username.
pub mod Parse
pub mod Safe
pub mod Render
use global_egress.Shared.{ℕ, Bool, ◌&&◌, not, List, Bytes, Addr, is_empty, ◌==◌, nat_eq}

-- TTL and BatchTTL are the 64 bits of an int64 of nanoseconds; `Parse` refuses the negative ones.
pub record Policy : Type 0 where
  pub any_exit : Bool
  pub countries : List Bytes
  pub cities : List Bytes
  pub slot : Bytes
  pub provider : Bytes
  pub session : Bytes
  pub ttl : ℕ
  pub unique_batch : Bytes
  pub batch_ttl : ℕ
  pub recycle_batch : Bool
  pub health_scope : Bytes
  pub exclude_ips : List Addr

-- IsZero: the client expressed nothing at all.
unfoldable pub is_zero : Policy → Bool
is_zero p =
    not p.any_exit
    && is_empty p.countries
    && is_empty p.cities
    && is_empty p.slot
    && is_empty p.provider
    && is_empty p.session
    && p.ttl == 0
    && is_empty p.unique_batch
    && p.batch_ttl == 0
    && is_empty p.health_scope
    && is_empty p.exclude_ips
