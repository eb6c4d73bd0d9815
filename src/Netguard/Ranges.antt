-- ===== src/Netguard/Ranges.antt =====
-- The guard as ranges of addresses.
use native.Mathlib.Nat.{mul-div_cancel, le-div_iff_mul-le, div-lt_iff_lt-mul}
use global_egress.Shared.{
  ℕ, zero, suc, ◌+◌, ◌-◌, ◌*◌, ◌/◌, ◌^◌, ◌≤◌, ◌<◌, ◌≡◌, ◌≢◌, ◌⊎◌, inl, inr, refl, false, List, [],
  ◌∷◌, Option, none, some, Bytes, nat_eq, ◌==◌, arith, Addr, ipv4, ipv6, any, subst, Result, ok,
  err, trim_space, In,
}
use global_egress.Netguard.{
  Prefix, Guard, GuardError, span, masked, unmap, prefix_contains, denies, parse_denied, check_addr,
  new_guard, default_denied_cidrs,
}

-- The addresses of a prefix are the interval that starts at its base.
abbrev pub base : ℕ → ℕ → ℕ
base m k = m / k * k

abbrev pub IsOutside : ℕ → ℕ → ℕ → Type 0
IsOutside m k n = (n < base m k) ⊎ (base m k + k ≤ n)

IsOutside-of_quotient : (n m k : ℕ) → 0 < k → (n / k == m / k) ≡ false → IsOutside m k n
IsOutside-of_quotient n m k positive h = ground (
  arith,
  le-div_iff_mul-le {x = m / k} {y = n} positive,
  div-lt_iff_lt-mul {x = n} {y = suc (m / k)} positive,
)

power_positive : (n : ℕ) → 0 < 2 ^ n
power_positive zero = omega arith
power_positive (suc n) = omega (arith, power_positive n)

base_again : (m k : ℕ) → 0 < k → base m k / k ≡ m / k
base_again m k positive = mul-div_cancel (m / k) positive

denies-IsOutside :
    (n m bits : ℕ)
    → denies (ipv4 n) (masked (record { addr = ipv4 m; bits = bits })) ≡ false
    → IsOutside m (span 32 bits) n
unfolding denies masked
denies-IsOutside n m bits h =
    IsOutside-of_quotient n m (span 32 bits) (power_positive (32 - bits))
      (rw (base_again m (span 32 bits) (power_positive (32 - bits))) at h)

-- What a list of prefixes denies, when it was read from a list of texts.
parse_denied-none :
    (parse_prefix : Bytes → Option Prefix) (raws : List Bytes) (ps : List Prefix) (candidate : Addr)
    → parse_denied parse_prefix raws ≡ ok ps
    → any (denies candidate) ps ≡ false
    → (raw : Bytes) (p : Prefix) → In raw raws
    → parse_prefix (trim_space raw) ≡ some p
    → denies candidate (masked p) ≡ false
unfolding parse_denied
parse_denied-none parse_prefix [] ps candidate h none_denies raw p m e = absurd m
parse_denied-none parse_prefix (x ∷ xs) ps candidate h none_denies raw p m e =
    go (parse_prefix (trim_space x)) refl (parse_denied parse_prefix xs) refl m
      (λ qs h' n' i. parse_denied-none parse_prefix xs qs candidate h' n' raw p i e)
  where
    go :
        (o : Option Prefix)
        → parse_prefix (trim_space x) ≡ o
        → (rest : Result GuardError (List Prefix)) → parse_denied parse_prefix xs ≡ rest
        → In raw (x ∷ xs)
        → ((qs : List Prefix)
            → parse_denied parse_prefix xs ≡ ok qs
            → any (denies candidate) qs ≡ false
            → In raw xs
            → denies candidate (masked p) ≡ false)
        → denies candidate (masked p) ≡ false
    go none eo rest er i rec = cc
    go (some q) eo (err f) er i rec = cc
    go (some q) eo (ok qs) er (inl same) rec = ground arith
    go (some q) eo (ok qs) er (inr i) rec = rec qs er (ground arith) i

abbrev pub cidrs_of : Option (List Bytes) → List Bytes
cidrs_of none = default_denied_cidrs
cidrs_of (some cidrs) = cidrs

new_guard-denied :
    (parse_prefix : Bytes → Option Prefix) (cidrs : Option (List Bytes)) (ports : List ℕ)
    (g : Guard)
    → new_guard parse_prefix cidrs ports ≡ ok g
    → parse_denied parse_prefix (cidrs_of cidrs) ≡ ok g.denied
unfolding new_guard
new_guard-denied parse_prefix none ports g h = ground arith
new_guard-denied parse_prefix (some cidrs) ports g h = ground arith

check_addr-none :
    (g : Guard) (addr : Addr)
    → check_addr g addr ≡ ok tt
    → any (denies (unmap addr)) g.denied ≡ false
unfolding check_addr
check_addr-none g addr h = ground arith

-- Whatever list of CIDRs a guard was made from, the default list included: an address that the guard
-- permits, in its IPv4 form or as an IPv4-mapped IPv6 address with or without a zone, lies outside
-- the whole interval of addresses of every IPv4 CIDR of the list.
pub check_addr-IsOutside :
    (parse_prefix : Bytes → Option Prefix) (cidrs : Option (List Bytes)) (ports : List ℕ)
    (g : Guard) (addr : Addr) (n : ℕ)
    → new_guard parse_prefix cidrs ports ≡ ok g
    → unmap addr ≡ ipv4 n
    → check_addr g addr ≡ ok tt
    → (raw : Bytes) (m bits : ℕ) → In raw (cidrs_of cidrs)
    → parse_prefix (trim_space raw) ≡ some (record { addr = ipv4 m; bits = bits })
    → IsOutside m (span 32 bits) n
check_addr-IsOutside parse_prefix cidrs ports g addr n made form permitted raw m bits listed read =
    denies-IsOutside n m bits (
      parse_denied-none parse_prefix (cidrs_of cidrs) g.denied (ipv4 n)
        (new_guard-denied parse_prefix cidrs ports g made)
        (subst (λ a. any (denies a) g.denied ≡ false) form (check_addr-none g addr permitted)) raw
        (record { addr = ipv4 m; bits = bits }) listed read)

contains_zoned : (p : Prefix) (n : ℕ) (c : ℕ) (cs : Bytes) → denies (ipv6 n (c ∷ cs)) p ≡ false
unfolding denies
contains_zoned p n c cs = ground (arith, prefix_contains)

none_zoned :
    (ps : List Prefix) (n : ℕ) (c : ℕ) (cs : Bytes) → any (denies (ipv6 n (c ∷ cs))) ps ≡ false
none_zoned [] n c cs = refl
none_zoned (p ∷ ps) n c cs = ground (arith, contains_zoned p n c cs, none_zoned ps n c cs)

-- A guard permits every IPv6 address with a zone that is not IPv4-mapped, whatever CIDRs it was made
-- from: netip's Contains finds no address with a zone in any prefix.
pub check_addr-zoned :
    (g : Guard) (n c : ℕ) (cs : Bytes) → n / 2 ^ 32 ≢ 65535 → check_addr g (ipv6 n (c ∷ cs)) ≡ ok tt
unfolding check_addr
check_addr-zoned g n c cs plain = ground (arith, none_zoned g.denied n c cs)
