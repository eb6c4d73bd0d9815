-- ===== src/Examples/Requests.antt =====
-- Concrete policies, guards and countries, and the theorems at them.
use global_egress.Shared.{
  ℕ, ◌+◌, ◌*◌, ◌^◌, ◌≤◌, ◌≡◌, ◌≢◌, ◌↔◌, refl, inl, List, [], ◌∷◌, Option, none, some, Bytes,
  bytes_beq, codes, Addr, ipv4, ipv6, if◌then◌else◌, Result, ok, err, arith, trim_space,
}
use global_egress.Policy.{Policy}
use global_egress.Policy.Parse.{PolicyError, no_policy, parse}
use global_egress.Policy.Safe.{IsSafe, parse-IsSafe}
use global_egress.Netguard.{Prefix, Guard, GuardError, new_guard, unmap, check_addr, span}
use global_egress.Netguard.Ranges.{IsOutside, check_addr-IsOutside, check_addr-zoned}
use global_egress.Georoute.{unknown, region_of, cost}
use global_egress.Georoute.Costs.{cost-nearest}

abbrev no_addr : Bytes → Option Addr
no_addr s = none

abbrev no_duration : Bytes → Option ℕ
no_duration s = none

abbrev username : Bytes
username = codes "cc=JP; uniq=b1; bttl=600"

abbrev accepted : Result PolicyError Policy → Policy
accepted (ok p) = p
accepted (err e) = no_policy

abbrev the_parsed : Policy
unfolding parse
the_parsed = accepted (parse no_addr no_duration username)

the_parse : parse no_addr no_duration username ≡ ok the_parsed
unfolding parse bytes_beq
the_parse = refl

parse-IsSafe_example : IsSafe the_parsed
parse-IsSafe_example = parse-IsSafe no_addr no_duration username the_parsed the_parse

abbrev refusing : Bytes → List Addr → Policy
refusing scope ips = record no_policy { health_scope = scope; exclude_ips = ips }

-- 10.0.0.0/8, and 203.0.113.1 written as ::ffff:203.0.113.1.
abbrev ten_slash_8 : Bytes
ten_slash_8 = codes "10.0.0.0/8"

abbrev read_prefix : Bytes → Option Prefix
unfolding bytes_beq
read_prefix s =
    if bytes_beq s ten_slash_8 then some (record { addr = ipv4 167772160; bits = 8 }) else none

abbrev public_mapped : Addr
public_mapped = ipv6 (65535 * 2 ^ 32 + 3405803777) []

abbrev no_guard : Guard
no_guard = record { denied = []; allowed_ports = none }

abbrev made_guard : Result GuardError Guard → Guard
made_guard (ok g) = g
made_guard (err e) = no_guard

abbrev the_guard : Guard
unfolding new_guard
the_guard = made_guard (new_guard read_prefix (some (ten_slash_8 ∷ [])) [])

the_guard_made : new_guard read_prefix (some (ten_slash_8 ∷ [])) [] ≡ ok the_guard
unfolding new_guard read_prefix
the_guard_made = refl

the_form : unmap public_mapped ≡ ipv4 3405803777
unfolding unmap
the_form = refl

the_permission : check_addr the_guard public_mapped ≡ ok tt
unfolding check_addr new_guard read_prefix
the_permission = refl

the_prefix :
    read_prefix (trim_space ten_slash_8) ≡ some (record { addr = ipv4 167772160; bits = 8 })
unfolding trim_space read_prefix
the_prefix = refl

check_addr-IsOutside_example : IsOutside 167772160 (span 32 8) 3405803777
check_addr-IsOutside_example =
    check_addr-IsOutside read_prefix (some (ten_slash_8 ∷ [])) [] the_guard public_mapped 3405803777
      the_guard_made the_form the_permission ten_slash_8 167772160 8 (inl refl) the_prefix

-- fe80::1%e with fe80::/10 denied.
abbrev link_local_guard : Guard
link_local_guard = record {
  denied = record { addr = ipv6 (65152 * 2 ^ 112) []; bits = 10 } ∷ [];
  allowed_ports = none;
}

check_addr-zoned_example :
    check_addr link_local_guard (ipv6 (65152 * 2 ^ 112 + 1) (codes "e")) ≡ ok tt
check_addr-zoned_example =
    check_addr-zoned link_local_guard (65152 * 2 ^ 112 + 1) b'e' [] (λ e. omega (arith, e))

cost-nearest_example :
    (cost (codes "JP") (codes "kr") ≤ 7)
    × ((cost (codes "JP") (codes "kr") ≡ 0)
        ↔ ((region_of (codes "JP") ≡ region_of (codes "kr")) × (region_of (codes "JP") ≢ unknown)))
cost-nearest_example = cost-nearest (codes "JP") (codes "kr")
