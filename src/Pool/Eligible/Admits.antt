-- ===== src/Pool/Eligible/Admits.antt =====
-- The test of `eligible` without its effect, and that the effect changes no later test.
use global_egress.Shared.{
  ℕ, ◌≡◌, ◌&&◌, Bool, false, not, [], Bytes, bytes_eq, bytes_beq_iff, Addr, addr_eq, addr_beq_iff,
  is_empty, is_valid, lookup, delete, lookup-insert, lookup-delete, or_default, arith, ◌==◌, inl,
  inr, Bool-cases, Map,
}
use global_egress.Policy.{Policy}
use global_egress.Pool.State.{SlotState, Pool, IpCooldowns}
use global_egress.Pool.Cooldowns.{cooling_down, pending_at, forget_ip, ip_cooling_down}
use global_egress.Pool.Eligible.{is_named, allowed, eligible}

unfoldable pub ip_cooled : Bytes → Addr → ℕ → IpCooldowns → Bool
unfolding pending_at
ip_cooled target ip now m =
    not (is_empty target)
    && is_valid ip
    && pending_at (lookup ip (or_default (lookup target m) [])) now

unfoldable pub admits : Pool → SlotState → Policy → Bytes → ℕ → Bool
unfolding is_named allowed cooling_down ip_cooled
admits p s pol target now =
    is_named s pol now
    && not (cooling_down s target now)
    && not (ip_cooled target s.public_ip now p.ip_cooldowns)
    && allowed p s pol now

abbrev pub Agree : ℕ → IpCooldowns → IpCooldowns → Type 0
Agree now m m' =
    (target : Bytes) (ip : Addr) → ip_cooled target ip now m ≡ ip_cooled target ip now m'

ip_cooling_down-test :
    (target : Bytes) (ip : Addr) (now : ℕ) (m : IpCooldowns)
    → (ip_cooling_down target ip now m).0 ≡ ip_cooled target ip now m
unfolding ip_cooling_down ip_cooled
ip_cooling_down-test target ip now m = ground arith

-- The addresses of one destination, after one that has run out is deleted.
pending_at-delete :
    (ip other : Addr) (now : ℕ) (by_ip : Map Addr ℕ)
    → pending_at (lookup ip by_ip) now ≡ false
    → pending_at (lookup other (delete ip by_ip)) now ≡ pending_at (lookup other by_ip) now
unfolding pending_at
pending_at-delete ip other now by_ip h =
    rw (lookup-delete ip other by_ip) (ground (arith, addr_beq_iff ip other))

abbrev by_ip_of : Bytes → IpCooldowns → Map Addr ℕ
by_ip_of target m = or_default (lookup target m) []

-- Where an address of the destination has run out, deleting it changes no test there.
pending_at-forget :
    (target : Bytes) (ip : Addr) (now : ℕ) (m : IpCooldowns)
    → pending_at (lookup ip (by_ip_of target m)) now ≡ false
    → (other : Addr)
    → pending_at (lookup other (by_ip_of target (forget_ip target ip m))) now
      ≡ pending_at (lookup other (by_ip_of target m)) now
unfolding forget_ip lookup
pending_at-forget target ip now m h other = ground (
  arith,
  bytes_beq_iff target target,
  pending_at-delete ip other now (by_ip_of target m) h,
  lookup-delete target target m,
  lookup-insert target target (delete ip (by_ip_of target m)) m,
)

forget_ip_other :
    (target other : Bytes) (ip : Addr) (m : IpCooldowns)
    → (target == other) ≡ false
    → lookup other (forget_ip target ip m) ≡ lookup other m
unfolding forget_ip
forget_ip_other target other ip m h = ground (
  arith,
  lookup-delete target other m,
  lookup-insert target other (delete ip (by_ip_of target m)) m,
)

ip_cooled-forget :
    (target : Bytes) (ip : Addr) (now : ℕ) (m : IpCooldowns)
    → pending_at (lookup ip (by_ip_of target m)) now ≡ false
    → Agree now (forget_ip target ip m) m
unfolding ip_cooled
ip_cooled-forget target ip now m h other a = elim (Bool-cases (target == other)) [
  | inl same ↦
      let e : target ≡ other = (bytes_beq_iff target other).0 same in
      rw (← e) (ground (arith, pending_at-forget target ip now m h a))
  | inr apart ↦ rw (forget_ip_other target other ip m apart)
]

-- The effect of one test.
pub ip_cooling_down-Agree :
    (target : Bytes) (ip : Addr) (now : ℕ) (m : IpCooldowns)
    → Agree now (ip_cooling_down target ip now m).1 m
unfolding ip_cooling_down
ip_cooling_down-Agree target ip now m other a = ground (
  arith,
  λ (h : pending_at (lookup ip (by_ip_of target m)) now ≡ false).
      ip_cooled-forget target ip now m h other a,
)

pub eligible-Agree :
    (p : Pool) (m : IpCooldowns) (s : SlotState) (pol : Policy) (target : Bytes) (now : ℕ)
    → Agree now (eligible p m s pol target now).1 m
unfolding eligible
eligible-Agree p m s pol target now other a =
    ground (arith, ip_cooling_down-Agree target s.public_ip now m other a)

-- The test of `eligible`, at cooldowns that earlier tests have left.
pub eligible-admits :
    (p : Pool) (m : IpCooldowns) (s : SlotState) (pol : Policy) (target : Bytes) (now : ℕ)
    → Agree now m p.ip_cooldowns
    → (eligible p m s pol target now).0 ≡ admits p s pol target now
unfolding eligible admits
eligible-admits p m s pol target now agree =
    ground (arith, ip_cooling_down-test target s.public_ip now m, agree target s.public_ip)
