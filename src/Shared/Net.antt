-- ===== src/Shared/Net.antt =====
-- net/netip's Addr: the zero value, an IPv4 address, or an IPv6 address with its zone.
use mathlib.Core.Path.{◌≡◌}
use mathlib.Core.Logic.{◌↔◌}
use mathlib.Core.Bool.{Bool, true, false, ◌&&◌}
use Prim.Native.Nat.{ℕ}
use native.Mathlib.Omega.{arith}
use global_egress.Shared.Tests.{Eq, nat_eq, ◌==◌}
use global_egress.Shared.Text.{Bytes, bytes_eq, bytes_beq_iff}

pub data Addr : Type 0 where
  zero_addr : Addr
  ipv4 : ℕ → Addr
  ipv6 : ℕ → Bytes → Addr

-- Addr.IsValid
abbrev pub is_valid : Addr → Bool
is_valid zero_addr = false
is_valid (ipv4 n) = true
is_valid (ipv6 n zone) = true

unfoldable pub addr_beq : Addr → Addr → Bool
addr_beq zero_addr zero_addr = true
addr_beq (ipv4 a) (ipv4 b) = a == b
addr_beq (ipv6 a z) (ipv6 b y) = a == b && z == y
addr_beq _ _ = false

pub addr_beq_iff : (a b : Addr) → (addr_beq a b ≡ true) ↔ (a ≡ b)
unfolding addr_beq
addr_beq_iff zero_addr zero_addr = ground arith
addr_beq_iff (ipv4 a) (ipv4 b) = ground arith
addr_beq_iff (ipv6 a z) (ipv6 b y) = ground (arith, bytes_beq_iff z y)
addr_beq_iff zero_addr b = ground arith
addr_beq_iff (ipv4 a) b = ground arith
addr_beq_iff (ipv6 a z) b = ground arith

instance abbrev pub addr_eq : Eq Addr
addr_eq = record { beq = addr_beq; beq_iff = addr_beq_iff }
