-- ===== src/Pool/Views.antt =====
-- Session and Len in internal/pool/pool.go: what a client may ask of the pool.
use global_egress.Shared.{
  ℕ, Option, none, some, Bytes, Addr, bytes_eq, nat_eq, ◌==◌, bytes_beq, if◌then◌else◌, length,
  lookup, is_valid, ltb,
}
use global_egress.Pool.State.{Pool}
use global_egress.Pool.Relays.{slot_of}

pub record SessionInfo : Type 0 where
  pub session : Bytes
  pub slot : Bytes
  pub country : Bytes
  pub city : Bytes
  pub public_ip : Option Addr
  pub expires_at : ℕ
  pub checked_at : Option ℕ

-- Session
unfoldable pub session_info : Bytes → ℕ → Pool → Option SessionInfo
unfolding lookup bytes_beq
session_info name now p = elim (lookup name p.sessions) [
  | none ↦ none
  | some sess ↦ if ltb sess.expires_at now then none else elim (slot_of sess.slot_id p.slots) [
    | none ↦ none
    | some s ↦ some (record {
      session = name;
      slot = s.spec.id;
      country = s.spec.country;
      city = s.spec.city;
      public_ip = if is_valid s.public_ip then some s.public_ip else none;
      expires_at = sess.expires_at;
      checked_at = if s.ip_checked_at == 0 then none else some s.ip_checked_at;
    })
  ]
]

-- Len
abbrev pub pool_len : Pool → ℕ
pool_len p = length p.slots
