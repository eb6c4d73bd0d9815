-- ===== src/Policy/Safe.antt =====
-- What every policy that Parse accepts satisfies, whatever the client wrote.
use global_egress.Shared.{
  ℕ, ◌^◌, ◌≤◌, ◌<◌, ◌≡◌, ◌≢◌, ◌⊎◌, inl, inr, refl, Bool, true, false, not, ◌&&◌, ◌||◌, ltb, List,
  [], ◌∷◌, Option, Bytes, ◌==◌, nat_eq, arith, Addr, is_empty, any, length, All, In, Bool-cases,
  Result, ok, err, ◌>>=◌, ◌>>◌, sort_strings, All-sort_strings, subst, trim_space, fields_func,
}
use global_egress.Policy.{Policy}
use global_egress.Policy.Parse.{
  PolicyError, unsafe_characters, bad_country, negative_duration, batch_ttl_without_batch,
  conflicting_location, no_policy, is_negative, is_token_byte, is_safe_opaque_token,
  is_ascii_country_code, guard, is_token_or_empty, check_cities, validate, apply_fields, parse,
}

-- A letter, a digit, a dash, an underscore or a dot.
abbrev pub IsTokenByte : ℕ → Type 0
IsTokenByte c =
    ((b'a' ≤ c) × (c ≤ b'z'))
    ⊎ ((b'A' ≤ c) × (c ≤ b'Z'))
    ⊎ ((b'0' ≤ c) × (c ≤ b'9'))
    ⊎ (c ≡ b'-')
    ⊎ (c ≡ b'_')
    ⊎ (c ≡ b'.')

abbrev pub IsToken : Bytes → Type 0
IsToken s = (length s ≤ 128) × All IsTokenByte s

abbrev pub IsLetter : ℕ → Type 0
IsLetter c = (b'a' ≤ c) × (c ≤ b'z')

abbrev pub IsCountry : Bytes → Type 0
IsCountry s = (length s ≡ 2) × All IsLetter s

abbrev pub IsCity : Bytes → Type 0
IsCity s = IsToken s × In b'-' s

-- No field holds a separator, a blank or a control byte, and the directives agree with each other.
pub record IsSafe (p : Policy) : Type 0 where
  pub session : IsToken p.session
  pub slot : IsToken p.slot
  pub provider : IsToken p.provider
  pub unique_batch : IsToken p.unique_batch
  pub health_scope : IsToken p.health_scope
  pub countries : All IsCountry p.countries
  pub cities : All IsCity p.cities
  pub ttl : p.ttl < 2 ^ 63
  pub batch_ttl : p.batch_ttl < 2 ^ 63
  pub named : 0 < p.batch_ttl → p.unique_batch ≢ []
  pub located : p.any_exit ≡ true → (p.countries ≡ []) × (p.cities ≡ []) × (p.slot ≡ [])

IsTokenByte-of_test : (c : ℕ) → is_token_byte c ≡ true → IsTokenByte c
IsTokenByte-of_test c h = ground arith

All-of_none :
    (t : Bytes → Bool) (P : Bytes → Type 0) (xs : List Bytes)
    → ((x : Bytes) → t x ≡ true → P x)
    → any (λ x. not (t x)) xs ≡ false
    → All P xs
All-of_none t P [] sound h = tt
All-of_none t P (x ∷ xs) sound h = (sound x (ground arith), All-of_none t P xs sound (ground arith))

token_bytes : (xs : Bytes) → any (λ c. not (is_token_byte c)) xs ≡ false → All IsTokenByte xs
token_bytes [] h = tt
token_bytes (c ∷ cs) h = (IsTokenByte-of_test c (ground arith), token_bytes cs (ground arith))

IsToken-of_test : (s : Bytes) → is_safe_opaque_token s ≡ true → IsToken s
unfolding is_safe_opaque_token
IsToken-of_test s h = (ground arith, token_bytes s (ground arith))

IsToken-or_empty : (s : Bytes) → is_token_or_empty s ≡ true → IsToken s
IsToken-or_empty [] h = (omega arith, tt)
IsToken-or_empty (c ∷ cs) h = IsToken-of_test (c ∷ cs) h

IsCountry-of_test : (s : Bytes) → is_ascii_country_code s ≡ true → IsCountry s
unfolding is_ascii_country_code
IsCountry-of_test (a ∷ b ∷ []) h = (refl, (ground arith, (ground arith, tt)))
IsCountry-of_test [] h = cc
IsCountry-of_test (a ∷ []) h = cc
IsCountry-of_test (a ∷ b ∷ c ∷ cs) h = cc

dash_In : (s : Bytes) → any (λ c. c == b'-') s ≡ true → In b'-' s
dash_In [] h = cc
dash_In (c ∷ cs) h = elim (Bool-cases (c == b'-')) [
  | inl e ↦ inl (ground arith)
  | inr e ↦ inr (dash_In cs (ground arith))
]

check_cities-IsCity : (xs : List Bytes) → check_cities xs ≡ ok tt → All IsCity xs
unfolding check_cities
check_cities-IsCity [] h = tt
check_cities-IsCity (x ∷ xs) h = (
  (IsToken-of_test x (ground arith), dash_In x (ground arith)),
  check_cities-IsCity xs (ground arith),
)

guard-ok :
    (b : Bool) (e : PolicyError) {A : Type 0} (k : Result PolicyError A) {a : A}
    → (guard b e >> k) ≡ ok a
    → (b ≡ true) × (k ≡ ok a)
guard-ok true e k h = (refl, h)
guard-ok false e k h = cc

then-ok :
    (m : Result PolicyError (Unit {0})) {A : Type 0} (k : Result PolicyError A) {a : A}
    → (m >> k) ≡ ok a
    → (m ≡ ok tt) × (k ≡ ok a)
then-ok (ok u) k h = (refl, h)
then-ok (err e) k h = cc

bind-ok :
    {A B : Type 0} (m : Result PolicyError A) (f : A → Result PolicyError B) {b : B}
    → (m >>= f) ≡ ok b
    → (a : A) × (f a ≡ ok b)
bind-ok (ok a) f h = (a, h)
bind-ok (err e) f h = cc

sort_nil : (xs : List Bytes) → is_empty xs ≡ true → sort_strings xs ≡ []
unfolding sort_strings
sort_nil [] h = refl
sort_nil (x ∷ xs) h = cc

nil_of_empty : (s : Bytes) → is_empty s ≡ true → s ≡ []
nil_of_empty [] h = refl
nil_of_empty (c ∷ cs) h = cc

ok_injective : {A : Type 0} {a b : A} → ◌≡◌ {A = Result PolicyError A} (ok a) (ok b) → a ≡ b
ok_injective h = cc

and_split : (a b : Bool) → (a && b) ≡ true → (a ≡ true) × (b ≡ true)
and_split a b h = ground arith

tokens_safe :
    (p : Policy)
    → (is_token_or_empty p.session
        && is_token_or_empty p.slot
        && is_token_or_empty p.provider
        && is_token_or_empty p.unique_batch
        && is_token_or_empty p.health_scope)
      ≡ true
    → IsToken p.session
      × IsToken p.slot
      × IsToken p.provider
      × IsToken p.unique_batch
      × IsToken p.health_scope
tokens_safe p h =
    let (h1, e) = and_split _ (is_token_or_empty p.health_scope) h in
    let (h2, d) = and_split _ (is_token_or_empty p.unique_batch) h1 in
    let (h3, c) = and_split _ (is_token_or_empty p.provider) h2 in
    let (a, b) = and_split (is_token_or_empty p.session) (is_token_or_empty p.slot) h3 in
    (
      IsToken-or_empty p.session a,
      IsToken-or_empty p.slot b,
      IsToken-or_empty p.provider c,
      IsToken-or_empty p.unique_batch d,
      IsToken-or_empty p.health_scope e,
    )

is_named_of_test : (n : ℕ) (s : Bytes) → (n == 0 || not (is_empty s)) ≡ true → 0 < n → s ≢ []
is_named_of_test n [] h positive e = ground arith
is_named_of_test n (c ∷ cs) h positive e = cc

below : (n : ℕ) → not (is_negative n) ≡ true → n < 2 ^ 63
below n h = ground arith

located_of_test :
    (any_exit : Bool) (countries cities : List Bytes) (slot : Bytes)
    → (not any_exit || (is_empty countries && is_empty cities && is_empty slot)) ≡ true
    → any_exit ≡ true
    → (is_empty countries ≡ true) × (is_empty cities ≡ true) × (is_empty slot ≡ true)
located_of_test any_exit countries cities slot h e = ground arith

is_false_of_not : (b : Bool) → not b ≡ true → b ≡ false
is_false_of_not b h = ground arith

pub validate-IsSafe : (p q : Policy) → validate p ≡ ok q → IsSafe q
unfolding validate
validate-IsSafe p q h =
    let (tokens, h1) = guard-ok _ unsafe_characters _ h in
    let (ccs, h2) = guard-ok _ bad_country _ h1 in
    let (cities, h3) = then-ok (check_cities p.cities) _ h2 in
    let (ttl, h4) = guard-ok _ negative_duration _ h3 in
    let (batch_ttl, h5) = guard-ok _ negative_duration _ h4 in
    let (named, h6) = guard-ok _ batch_ttl_without_batch _ h5 in
    let (located, h7) = guard-ok _ conflicting_location _ h6 in
    let (session, slot, provider, unique_batch, health_scope) = tokens_safe p tokens in
    subst IsSafe (ok_injective h7) (record {
      session = session;
      slot = slot;
      provider = provider;
      unique_batch = unique_batch;
      health_scope = health_scope;
      countries = All-sort_strings IsCountry p.countries (
          All-of_none is_ascii_country_code IsCountry p.countries IsCountry-of_test
            (is_false_of_not _ ccs));
      cities = All-sort_strings IsCity p.cities (check_cities-IsCity p.cities cities);
      ttl = below p.ttl ttl;
      batch_ttl = below p.batch_ttl batch_ttl;
      named = is_named_of_test p.batch_ttl p.unique_batch named;
      located = λ any_exit.
          let (no_countries, no_cities, no_slot) =
            located_of_test p.any_exit p.countries p.cities p.slot located any_exit in
          (
            sort_nil p.countries no_countries,
            sort_nil p.cities no_cities,
            nil_of_empty p.slot no_slot,
          );
    })

no_policy-IsSafe : IsSafe no_policy
no_policy-IsSafe = record {
  session = (omega arith, tt);
  slot = (omega arith, tt);
  provider = (omega arith, tt);
  unique_batch = (omega arith, tt);
  health_scope = (omega arith, tt);
  countries = tt;
  cities = tt;
  ttl = omega arith;
  batch_ttl = omega arith;
  named = λ positive. absurd (omega arith);
  located = λ any. (refl, refl, refl);
}

-- Whatever text a client sends and whatever the address and duration parsers of the standard library
-- return: a policy that Parse accepts holds tokens of at most 128 letters, digits, dashes,
-- underscores and dots, two-letter lower-case country codes, cities with a dash in them, durations
-- that are not negative, a batch duration only with a batch, and `any` only without a location.
pub parse-IsSafe :
    (parse_addr : Bytes → Option Addr) (parse_duration : Bytes → Option ℕ) (username : Bytes)
    (p : Policy)
    → parse parse_addr parse_duration username ≡ ok p
    → IsSafe p
unfolding parse
parse-IsSafe parse_addr parse_duration username p h =
    let trimmed = trim_space username in
    let parsed =
      apply_fields parse_addr parse_duration (fields_func (λ c. c == b';' || c == b',') trimmed)
        no_policy in
    elim (Bool-cases (is_empty trimmed)) [
      | inl blank ↦ subst IsSafe (ok_injective (rw blank at h)) no_policy-IsSafe
      | inr written ↦ elim (Bool-cases (ltb 512 (length trimmed))) [
        | inl long ↦ cc
        | inr short ↦ elim (Bool-cases (any (λ c. c == b'=') trimmed)) [
          | inl directives ↦
              let (q, valid) = bind-ok parsed validate (rw (written, short, directives) at h) in
              validate-IsSafe q p valid
          | inr account ↦
              subst IsSafe (ok_injective (rw (written, short, account) at h)) no_policy-IsSafe
        ]
      ]
    ]
