-- ===== src/Netguard.antt =====
-- internal/netguard/netguard.go: which destinations the proxy is willing to reach. What netip's
-- ParsePrefix and ParseAddr and net's SplitHostPort return is taken from outside.
pub mod Ranges
use global_egress.Shared.{
  ℕ, ◌+◌, ◌-◌, ◌*◌, ◌/◌, ◌%◌, ◌^◌, Bool, true, false, not, ◌&&◌, ◌||◌, List, [], ◌∷◌, Option, none,
  some, Bytes, codes, nat_eq, bytes_eq, bytes_beq, ◌==◌, Addr, zero_addr, ipv4, ipv6, is_valid,
  is_empty, if◌then◌else◌, ltb, leb, any, map, length, drop, Result, ok, err, ◌>>=◌, to_lower,
  equal_fold, trim_space,
}

pub data GuardError : Type 0 where
  invalid_cidr invalid_port port_not_allowed invalid_address denied_range : GuardError
  empty_host local_host : GuardError

-- netip.Prefix: an address and how many of its bits count.
pub record Prefix : Type 0 where
  pub addr : Addr
  pub bits : ℕ

-- How many numbers a prefix of an address of this width holds.
abbrev pub span : ℕ → ℕ → ℕ
span width bits = 2 ^ (width - bits)

-- Prefix.Masked
unfoldable pub masked : Prefix → Prefix
masked p = elim p.addr [
  | zero_addr ↦ p
  | ipv4 n ↦ record p { addr = ipv4 (n / span 32 p.bits * span 32 p.bits) }
  | ipv6 n zone ↦ record p { addr = ipv6 (n / span 128 p.bits * span 128 p.bits) [] }
]

-- Addr.Unmap: an IPv4-mapped IPv6 address becomes the IPv4 address, without a zone.
unfoldable pub unmap : Addr → Addr
unmap zero_addr = zero_addr
unmap (ipv4 n) = ipv4 n
unmap (ipv6 n zone) = if n / 2 ^ 32 == 65535 then ipv4 (n % 2 ^ 32) else ipv6 n zone

abbrev pub is4 : Addr → Bool
is4 zero_addr = false
is4 (ipv4 n) = true
is4 (ipv6 n zone) = false

-- Prefix.Contains: an address with a zone is in no prefix.
unfoldable pub prefix_contains : Prefix → Addr → Bool
prefix_contains p ip = elim p.addr [
  | zero_addr ↦ false
  | ipv4 m ↦ elim ip [ ipv4 n ↦ n / span 32 p.bits == m / span 32 p.bits | _ ↦ false ]
  | ipv6 m own ↦ elim ip [
    | ipv6 n zone ↦ is_empty zone && n / span 128 p.bits == m / span 128 p.bits
    | _ ↦ false
  ]
]

-- `allowed_ports` is none when every port is allowed.
pub record Guard : Type 0 where
  pub denied : List Prefix
  pub allowed_ports : Option (List ℕ)

abbrev is_port : ℕ → Bool
is_port port = leb 1 port && leb port 65535

abbrev pub default_denied_cidrs : List Bytes
default_denied_cidrs =
    codes "0.0.0.0/8"
    ∷ codes "10.0.0.0/8"
    ∷ codes "100.64.0.0/10"
    ∷ codes "127.0.0.0/8"
    ∷ codes "169.254.0.0/16"
    ∷ codes "172.16.0.0/12"
    ∷ codes "192.0.0.0/24"
    ∷ codes "192.168.0.0/16"
    ∷ codes "198.18.0.0/15"
    ∷ codes "224.0.0.0/4"
    ∷ codes "240.0.0.0/4"
    ∷ codes "255.255.255.255/32"
    ∷ codes "::1/128"
    ∷ codes "fc00::/7"
    ∷ codes "fe80::/10"
    ∷ codes "ff00::/8"
    ∷ []

-- The addresses of the list, masked, in their order.
unfoldable pub parse_denied : (Bytes → Option Prefix) → List Bytes → Result GuardError (List Prefix)
unfolding masked trim_space
parse_denied parse_prefix [] = ok []
parse_denied parse_prefix (raw ∷ raws) =
    let rest = parse_denied parse_prefix raws in
    elim (parse_prefix (trim_space raw)) [
      | none ↦ err invalid_cidr
      | some p ↦ rest >>= λ ps. ok (masked p ∷ ps)
    ]

unfoldable pub check_ports : List ℕ → Result GuardError (Option (List ℕ))
check_ports ports =
    if is_empty ports
    then ok none
    else if any (λ port. not (is_port port)) ports
    then err invalid_port
    else ok (some ports)

-- New: `none` is the nil slice.
unfoldable pub new_guard :
    (Bytes → Option Prefix) → Option (List Bytes) → List ℕ → Result GuardError Guard
unfolding parse_denied check_ports
new_guard parse_prefix cidrs ports =
    parse_denied parse_prefix (elim cidrs [ none ↦ default_denied_cidrs | some list ↦ list ])
    >>= λ denied.
        check_ports ports >>= λ allowed. ok (record { denied = denied; allowed_ports = allowed })

-- CheckPort
unfoldable pub check_port : Guard → ℕ → Result GuardError (Unit {0})
check_port g port = if not (is_port port) then err invalid_port else elim g.allowed_ports [
  | none ↦ ok tt
  | some ports ↦ if any (λ allowed. allowed == port) ports then ok tt else err port_not_allowed
]

-- One prefix of the loop of CheckAddr; `==` on Booleans is written out.
unfoldable pub denies : Addr → Prefix → Bool
unfolding prefix_contains
denies candidate p =
    if is4 p.addr
    then is4 candidate && prefix_contains p candidate
    else not (is4 candidate) && prefix_contains p candidate

-- CheckAddr
unfoldable pub check_addr : Guard → Addr → Result GuardError (Unit {0})
unfolding denies unmap
check_addr g addr =
    if not (is_valid addr)
    then err invalid_address
    else if any (denies (unmap addr)) g.denied
    then err denied_range
    else ok tt

abbrev has_suffix : Bytes → Bytes → Bool
has_suffix s suffix =
    leb (length suffix) (length s) && bytes_beq (drop (length s - length suffix) s) suffix

-- CheckHost
unfoldable pub check_host : (Bytes → Option Addr) → Guard → Bytes → Result GuardError (Unit {0})
unfolding check_addr equal_fold to_lower bytes_beq
check_host parse_addr g host = elim (parse_addr host) [
  | some addr ↦ check_addr g addr
  | none ↦
      if is_empty host
      then err empty_host
      else if equal_fold host (codes "localhost") || has_suffix (to_lower host) (codes ".localhost")
      then err local_host
      else ok tt
]

-- CheckResolved: `none` is the nil net.Addr, and a text is what its String method returns.
unfoldable pub check_resolved :
    (Bytes → Option Addr)
    → (Bytes → Option Bytes)
    → Guard
    → Option Bytes
    → Result GuardError (Unit {0})
unfolding check_addr
check_resolved parse_addr split_host_port g none = ok tt
check_resolved parse_addr split_host_port g (some text) =
    let host : Bytes = elim (split_host_port text) [ none ↦ text | some host ↦ host ] in
    elim (parse_addr host) [ none ↦ ok tt | some addr ↦ check_addr g addr ]
