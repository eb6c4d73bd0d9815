-- ===== src/Pool/Eligible/Serves.antt =====
-- What a selection promises of the slot that it admits, apart from the tests of the code.
use global_egress.Shared.{
  ℕ, ◌+◌, ◌≤◌, ◌<◌, ◌≡◌, ◌≢◌, ◌⊎◌, refl, sym, ◌||◌, Bool, true, false, List, [], ◌∷◌, none, some,
  Bytes, bytes_eq, bytes_beq_iff, Addr, addr_eq, is_empty, is_valid, lookup, arith, ◌==◌, inl, inr,
  Bool-cases, Map, Eq, In, any, to_lower, equal_fold,
}
use global_egress.Policy.{Policy}
use global_egress.Pool.State.{SlotState, Pool, Batch}
use global_egress.Pool.Batch.{contains}
use global_egress.Pool.Cooldowns.{cooling_down}
use global_egress.Pool.Eligible.{
  contains_fold, is_named, has_room, requires_fresh_ip, ip_is_fresh, has_identity, not_burned,
  batch_allows, allowed,
}
use global_egress.Pool.Eligible.Admits.{ip_cooled, admits}

module _ {A : Type 0} ⦃e : Eq A⦄ where
  pub contains-In : (a : A) (xs : List A) → contains a xs ≡ true → In a xs
  unfolding contains
  contains-In a [] h = cc
  contains-In a (x ∷ xs) h = elim (Bool-cases (x == a)) [
    | inl p ↦ inl (sym ((e.beq_iff x a).0 p))
    | inr p ↦ inr (contains-In a xs (ground arith))
  ]

  pub In-contains : (a : A) (xs : List A) → In a xs → contains a xs ≡ true
  unfolding contains
  In-contains a [] h = absurd h
  In-contains a (x ∷ xs) (inl p) = ground (arith, e.beq_iff x a)
  In-contains a (x ∷ xs) (inr m) = ground (arith, In-contains a xs m)

any-In :
    (t : Bytes → Bool) (xs : List Bytes) → any t xs ≡ true → (x : Bytes) × In x xs × (t x ≡ true)
any-In t [] h = cc
any-In t (x ∷ xs) h = elim (Bool-cases (t x)) [
  | inl p ↦ (x, inl refl, p)
  | inr p ↦ let (y, m, q) = any-In t xs (ground arith) in (y, inr m, q)
]

-- A list that is no constraint when it is empty, compared without regard to case.
abbrev pub Within : List Bytes → Bytes → Type 0
Within list value = (list ≡ []) ⊎ ((item : Bytes) × In item list × (to_lower item ≡ to_lower value))

-- A text that is no constraint when it is empty.
abbrev pub Pins : Bytes → Bytes → Type 0
Pins wanted value = (wanted ≡ []) ⊎ (value ≡ wanted)

-- No cooldown of the slot, or of its address, for the destination is still to come.
pub record IsWarm (p : Pool) (s : SlotState) (target : Bytes) (now : ℕ) : Type 0 where
  pub slot_warm : (until : ℕ) → target ≢ [] → lookup target s.cooldowns ≡ some until → until ≤ now
  pub ip_warm :
      (by_ip : Map Addr ℕ) (until : ℕ)
      → target ≢ []
      → is_valid s.public_ip ≡ true
      → lookup target p.ip_cooldowns ≡ some by_ip
      → lookup s.public_ip by_ip ≡ some until
      → until ≤ now

-- The measured address is recent, and the upstream does not change it by itself.
pub record IsMeasured (p : Pool) (s : SlotState) (now : ℕ) : Type 0 where
  pub valid : is_valid s.public_ip ≡ true
  pub recent : now < s.ip_checked_at + p.opts.ip_refresh_interval
  pub stable : s.spec.rotating ≡ false

-- Neither the slot nor its address was used in the live batch.
abbrev pub IsUnused : Pool → SlotState → Policy → ℕ → Type 0
IsUnused p s pol now =
    (b : Batch)
    → pol.unique_batch ≢ []
    → lookup pol.unique_batch p.batches ≡ some b
    → now < b.expires_at
    → (¬ In s.spec.id b.used_slots) × (lookup s.public_ip b.used_ips ≡ none)

pub record Serves (p : Pool) (s : SlotState) (pol : Policy) (target : Bytes) (now : ℕ)
    : Type 0 where
  pub enabled : s.disabled_until ≤ now
  pub pinned : Pins pol.slot s.spec.id
  pub provided : Pins pol.provider s.spec.provider
  pub in_country : Within pol.countries s.spec.country
  pub in_city : Within pol.cities s.spec.city
  pub warm : IsWarm p s target now
  pub room :
      (p.opts.max_conns_per_exit ≡ 0) ⊎ (s.leases + s.pending_leases < p.opts.max_conns_per_exit)
  pub not_refused : ¬ In s.public_ip pol.exclude_ips
  pub measured : requires_fresh_ip pol ≡ true → IsMeasured p s now
  pub unused : IsUnused p s pol now

Pins-of_test :
    (wanted value : Bytes) → (is_empty wanted || value == wanted) ≡ true → Pins wanted value
Pins-of_test [] value h = inl refl
Pins-of_test (c ∷ cs) value h = inr ((bytes_beq_iff value (c ∷ cs)).0 h)

contains_fold-Within :
    (list : List Bytes) (value : Bytes)
    → (is_empty list || contains_fold list value) ≡ true
    → Within list value
unfolding contains_fold equal_fold
contains_fold-Within [] value h = inl refl
contains_fold-Within (x ∷ xs) [] h = cc
contains_fold-Within (x ∷ xs) (c ∷ cs) h =
    let (item, m, e) = any-In (λ item. equal_fold item (c ∷ cs)) (x ∷ xs) h in
    inr (item, m, (bytes_beq_iff (to_lower item) (to_lower (c ∷ cs))).0 e)

admits-IsWarm :
    (p : Pool) (s : SlotState) (target : Bytes) (now : ℕ)
    → cooling_down s target now ≡ false
    → ip_cooled target s.public_ip now p.ip_cooldowns ≡ false
    → IsWarm p s target now
unfolding cooling_down ip_cooled lookup
admits-IsWarm p s target now h k = record {
  slot_warm = λ until named found. ground arith;
  ip_warm = λ by_ip until named valid found entry. ground arith;
}

has_identity-IsMeasured :
    (p : Pool) (s : SlotState) (pol : Policy) (now : ℕ)
    → has_identity p.opts s pol now ≡ true
    → requires_fresh_ip pol ≡ true
    → IsMeasured p s now
unfolding has_identity ip_is_fresh
has_identity-IsMeasured p s pol now h r = ground arith

not_contains-In : {A : Type 0} ⦃e : Eq A⦄ (a : A) (xs : List A) → contains a xs ≡ false → ¬ In a xs
not_contains-In a xs h m = cc (In-contains a xs m)

allowed-IsUnused :
    (p : Pool) (s : SlotState) (pol : Policy) (now : ℕ)
    → allowed p s pol now ≡ true
    → IsUnused p s pol now
unfolding allowed batch_allows not_burned
allowed-IsUnused p s pol now h b named found live =
    (not_contains-In s.spec.id b.used_slots (ground arith), ground arith)

has_room-lt :
    (p : Pool) (s : SlotState)
    → has_room p.opts s ≡ true
    → (p.opts.max_conns_per_exit ≡ 0) ⊎ (s.leases + s.pending_leases < p.opts.max_conns_per_exit)
unfolding has_room
has_room-lt p s h = ground arith

-- A slot that passes every filter of the selection serves the policy: it is not backed off, it is the
-- slot, the provider, the country and the city that the client named if it named any, no cooldown of
-- the slot or of its address for the destination is still to come, the exit has room for one more
-- connection, its address is not refused by the client, is measured and recent where the policy needs
-- that, and neither slot nor address was used in the live batch that the policy names.
pub admits-Serves :
    (p : Pool) (s : SlotState) (pol : Policy) (target : Bytes) (now : ℕ)
    → admits p s pol target now ≡ true
    → Serves p s pol target now
unfolding admits is_named allowed has_identity
admits-Serves p s pol target now h = record {
  enabled = ground arith;
  pinned = Pins-of_test pol.slot s.spec.id (ground arith);
  provided = Pins-of_test pol.provider s.spec.provider (ground arith);
  in_country = contains_fold-Within pol.countries s.spec.country (ground arith);
  in_city = contains_fold-Within pol.cities s.spec.city (ground arith);
  warm = admits-IsWarm p s target now (ground arith) (ground arith);
  room = has_room-lt p s (ground arith);
  not_refused = not_contains-In s.public_ip pol.exclude_ips (ground arith);
  measured = has_identity-IsMeasured p s pol now (ground arith);
  unused = allowed-IsUnused p s pol now (ground arith);
}
