-- ===== src/Policy/Parse.antt =====
-- Parse and its helpers in internal/policy/policy.go. What net/netip's ParseAddr and time's
-- ParseDuration return is taken from outside; a duration is given by the 64 bits of its int64.
use global_egress.Shared.{
  ℕ, ◌*◌, ◌%◌, ◌^◌, Bool, true, false, not, ◌&&◌, ◌||◌, List, [], ◌∷◌, ◌++◌, Option, none, some,
  Bytes, codes, bytes_eq, nat_eq, ◌==◌, Addr, is_empty, if◌then◌else◌, ltb, leb, any, length,
  Result, ok, err, ◌>>=◌, ◌>>◌, to_lower, trim_space, split_at, fields_func, cut, atoi,
  sort_strings, is_digit,
}
use global_egress.Policy.{Policy}

pub data PolicyError : Type 0 where
  too_long not_key_value empty_value not_boolean bad_duration negative_duration zero_batch_ttl :
      PolicyError
  not_address unknown_directive unsafe_characters bad_country bad_city batch_ttl_without_batch :
      PolicyError
  conflicting_location : PolicyError

abbrev pub no_policy : Policy
no_policy = record {
  any_exit = false;
  countries = [];
  cities = [];
  slot = [];
  provider = [];
  session = [];
  ttl = 0;
  unique_batch = [];
  batch_ttl = 0;
  recycle_batch = false;
  health_scope = [];
  exclude_ips = [];
}

abbrev pub is_any : List Bytes → Bytes → Bool
is_any names key = any (λ name. name == key) names

-- parseBool
unfoldable pub parse_bool : Bytes → Result PolicyError Bool
unfolding to_lower
parse_bool value =
    if is_any (codes "1" ∷ codes "true" ∷ codes "yes" ∷ codes "y" ∷ []) (to_lower value)
    then ok true
    else if is_any (codes "0" ∷ codes "false" ∷ codes "no" ∷ codes "n" ∷ []) (to_lower value)
    then ok false
    else err not_boolean

-- An int64 is negative when its top bit is set.
abbrev pub is_negative : ℕ → Bool
is_negative bits = leb (2 ^ 63) bits

-- parseTTL: `time.Duration(secs) * time.Second` wraps.
unfoldable pub parse_ttl : (Bytes → Option ℕ) → Bytes → Result PolicyError ℕ
unfolding atoi
parse_ttl parse_duration value = elim (atoi value) [
  | some (neg, n) ↦
      if neg && not (n == 0) then err negative_duration else ok ((n * 1_000_000_000) % 2 ^ 64)
  | none ↦ elim (parse_duration value) [
    | none ↦ err bad_duration
    | some bits ↦ if is_negative bits then err negative_duration else ok bits
  ]
]

abbrev is_bar : ℕ → Bool
is_bar c = c == b'|'

unfoldable pub lower_items : List Bytes → List Bytes
unfolding trim_space to_lower
lower_items [] = []
lower_items (item ∷ items) =
    let lowered = to_lower (trim_space item) in
    let rest = lower_items items in if is_empty lowered then rest else lowered ∷ rest

-- appendLower
unfoldable pub append_lower : List Bytes → Bytes → List Bytes
unfolding lower_items split_at
append_lower dst value = dst ++ lower_items (split_at is_bar value)

-- The addresses of one `not=` directive.
unfoldable pub parse_addrs : (Bytes → Option Addr) → List Bytes → Result PolicyError (List Addr)
unfolding trim_space
parse_addrs parse_addr [] = ok []
parse_addrs parse_addr (item ∷ items) =
    let rest = parse_addrs parse_addr items in
    elim (parse_addr (trim_space item)) [
      | none ↦ err not_address
      | some ip ↦ rest >>= λ ips. ok (ip ∷ ips)
    ]

abbrev pub is_token_byte : ℕ → Bool
is_token_byte c =
    (leb b'a' c && leb c b'z')
    || (leb b'A' c && leb c b'Z')
    || is_digit c
    || c == b'-'
    || c == b'_'
    || c == b'.'

-- isSafeOpaqueToken
unfoldable pub is_safe_opaque_token : Bytes → Bool
is_safe_opaque_token value = leb (length value) 128 && not (any (λ c. not (is_token_byte c)) value)

-- isASCIICountryCode
unfoldable pub is_ascii_country_code : Bytes → Bool
is_ascii_country_code (a ∷ b ∷ []) = leb b'a' a && leb a b'z' && leb b'a' b && leb b b'z'
is_ascii_country_code _ = false

abbrev pub guard : Bool → PolicyError → Result PolicyError (Unit {0})
guard good e = if good then ok tt else err e

abbrev pub is_token_or_empty : Bytes → Bool
is_token_or_empty value = is_empty value || is_safe_opaque_token value

unfoldable pub check_cities : List Bytes → Result PolicyError (Unit {0})
unfolding is_safe_opaque_token
check_cities [] = ok tt
check_cities (city ∷ cities) =
    let rest = check_cities cities in
    guard (is_safe_opaque_token city) unsafe_characters
    >> guard (any (λ c. c == b'-') city) bad_city
    >> rest

-- validate
unfoldable pub validate : Policy → Result PolicyError Policy
unfolding is_safe_opaque_token is_ascii_country_code check_cities sort_strings
validate p =
    guard
      (is_token_or_empty p.session
        && is_token_or_empty p.slot
        && is_token_or_empty p.provider
        && is_token_or_empty p.unique_batch
        && is_token_or_empty p.health_scope)
      unsafe_characters
    >> guard (not (any (λ cc. not (is_ascii_country_code cc)) p.countries)) bad_country
    >> check_cities p.cities
    >> guard (not (is_negative p.ttl)) negative_duration
    >> guard (not (is_negative p.batch_ttl)) negative_duration
    >> guard (p.batch_ttl == 0 || not (is_empty p.unique_batch)) batch_ttl_without_batch
    >> guard (not p.any_exit || (is_empty p.countries && is_empty p.cities && is_empty p.slot))
        conflicting_location
    >> ok (record p { countries = sort_strings p.countries; cities = sort_strings p.cities })

module _ (parse_addr : Bytes → Option Addr) (parse_duration : Bytes → Option ℕ) where
  unfoldable pub set_directive : Bytes → Bytes → Policy → Result PolicyError Policy
  unfolding parse_bool parse_ttl append_lower parse_addrs
  set_directive key value p =
      if is_any (codes "any" ∷ []) key
      then parse_bool value >>= (λ enabled. ok (record p { any_exit = enabled }))
      else if is_any (codes "cc" ∷ codes "country" ∷ []) key
      then ok (record p { countries = append_lower p.countries value })
      else if is_any (codes "city" ∷ []) key
      then ok (record p { cities = append_lower p.cities value })
      else if is_any (codes "slot" ∷ []) key
      then ok (record p { slot = value })
      else if is_any (codes "provider" ∷ []) key
      then ok (record p { provider = value })
      else if is_any (codes "sess" ∷ codes "session" ∷ []) key
      then ok (record p { session = value })
      else if is_any (codes "ttl" ∷ []) key
      then parse_ttl parse_duration value >>= (λ ttl. ok (record p { ttl = ttl }))
      else if is_any (codes "uniq" ∷ codes "unique" ∷ []) key
      then ok (record p { unique_batch = value })
      else if is_any (codes "brecycle" ∷ []) key
      then parse_bool value >>= (λ enabled. ok (record p { recycle_batch = enabled }))
      else if is_any (codes "bttl" ∷ []) key
      then parse_ttl parse_duration value
        >>= (λ ttl. if ttl == 0 then err zero_batch_ttl else ok (record p { batch_ttl = ttl }))
      else if is_any (codes "health" ∷ []) key
      then ok (record p { health_scope = value })
      else if is_any (codes "not" ∷ codes "exclude" ∷ []) key
      then parse_addrs parse_addr (split_at is_bar value)
        >>= (λ ips. ok (record p { exclude_ips = p.exclude_ips ++ ips }))
      else err unknown_directive

  -- One field that is not blank.
  unfoldable pub apply_field : Bytes → Policy → Result PolicyError Policy
  unfolding set_directive cut trim_space to_lower
  apply_field field p = elim (cut b'=' field) [
    | none ↦ err not_key_value
    | some (key, value) ↦
        if is_empty (trim_space value)
        then err empty_value
        else set_directive (to_lower (trim_space key)) (trim_space value) p
  ]

  unfoldable pub apply_fields : List Bytes → Policy → Result PolicyError Policy
  unfolding apply_field
  apply_fields [] p = ok p
  apply_fields (field ∷ fields) p =
      let trimmed = trim_space field in
      (if is_empty trimmed then ok p else apply_field trimmed p) >>= apply_fields fields

  -- Parse
  unfoldable pub parse : Bytes → Result PolicyError Policy
  unfolding apply_fields validate fields_func
  parse username =
      let trimmed = trim_space username in
      if is_empty trimmed
      then ok no_policy
      else if ltb 512 (length trimmed)
      then err too_long
      else if not (any (λ c. c == b'=') trimmed)
      then ok no_policy
      else apply_fields (fields_func (λ c. c == b';' || c == b',') trimmed) no_policy >>= validate
