-- ===== src/Shared/Lists.antt =====
-- Lists measured, searched and filtered over native numbers and Boolean tests.
use Prim.Native.Nat.{ℕ, zero, suc, ◌+◌, ◌-◌, ◌≤◌}
use mathlib.Core.Path.{◌≡◌, refl, ap}
use mathlib.Core.Logic.{◌⊎◌, inl, inr}
use mathlib.Core.Bool.{Bool, true, false, ◌||◌}
use mathlib.Core.List.{List, [], ◌∷◌, ◌++◌, map}
use mathlib.Core.Option.{Option, none, some}
use native.Mathlib.Omega.{arith}
use global_egress.Shared.Tests.{if◌then◌else◌, Bool-cases}

module _ {ℓ} {A : Type ℓ} where
  abbrev pub length : List A → ℕ
  length [] = 0
  length (x ∷ xs) = suc (length xs)

  abbrev pub get_elem? : List A → ℕ → Option A
  get_elem? [] i = none
  get_elem? (x ∷ xs) zero = some x
  get_elem? (x ∷ xs) (suc i) = get_elem? xs i

  abbrev pub drop : ℕ → List A → List A
  drop zero xs = xs
  drop (suc n) [] = []
  drop (suc n) (x ∷ xs) = drop n xs

  abbrev pub take : ℕ → List A → List A
  take zero xs = []
  take (suc n) [] = []
  take (suc n) (x ∷ xs) = x ∷ take n xs

  -- The elements that pass a test, in their order.
  abbrev pub filter : (A → Bool) → List A → List A
  filter t [] = []
  filter t (x ∷ xs) = if t x then x ∷ filter t xs else filter t xs

  abbrev pub find : (A → Bool) → List A → Option A
  find t [] = none
  find t (x ∷ xs) = if t x then some x else find t xs

  abbrev pub any : (A → Bool) → List A → Bool
  any t [] = false
  any t (x ∷ xs) = t x || any t xs

  abbrev pub count_if : (A → Bool) → List A → ℕ
  count_if t [] = 0
  count_if t (x ∷ xs) = (if t x then 1 else 0) + count_if t xs

  abbrev pub All {κ} : (A → Type κ) → List A → Type κ
  All P [] = Unit
  All P (x ∷ xs) = P x × All P xs

  pub length-append : (xs ys : List A) → length (xs ++ ys) ≡ length xs + length ys
  length-append [] ys = omega arith
  length-append (x ∷ xs) ys = omega (arith, length-append xs ys)

  pub length-drop : (n : ℕ) (xs : List A) → length (drop n xs) ≡ length xs - n
  length-drop zero xs = omega arith
  length-drop (suc n) [] = omega arith
  length-drop (suc n) (x ∷ xs) = omega (arith, length-drop n xs)

  pub take-append : (xs ys : List A) → take (length xs) (xs ++ ys) ≡ xs
  take-append [] ys = refl
  take-append (x ∷ xs) ys = ap (λ r. x ∷ r) (take-append xs ys)

  pub drop-append : (xs ys : List A) → drop (length xs) (xs ++ ys) ≡ ys
  drop-append [] ys = refl
  drop-append (x ∷ xs) ys = drop-append xs ys

  pub append_assoc : (xs ys zs : List A) → (xs ++ ys) ++ zs ≡ xs ++ (ys ++ zs)
  append_assoc [] ys zs = refl
  append_assoc (x ∷ xs) ys zs = ap (λ r. x ∷ r) (append_assoc xs ys zs)

  pub append_nil : (xs : List A) → xs ++ [] ≡ xs
  append_nil [] = refl
  append_nil (x ∷ xs) = ap (λ r. x ∷ r) (append_nil xs)

  pub length-filter-le : (t : A → Bool) (xs : List A) → length (filter t xs) ≤ length xs
  length-filter-le t [] = omega arith
  length-filter-le t (x ∷ xs) = ground (arith, length-filter-le t xs)

module _ {A : Type 0} where
  -- Membership, with the place kept.
  abbrev pub In : A → List A → Type 0
  In a [] = ⊥
  In a (x ∷ xs) = (a ≡ x) ⊎ In a xs

  kept_cases :
      (t : A → Bool) (x : A) (xs : List A) {a : A}
      → t x ≡ true
      → (In a (filter t xs) → In a xs × (t a ≡ true))
      → In a (x ∷ filter t xs)
      → In a (x ∷ xs) × (t a ≡ true)
  kept_cases t x xs e rest (inl p) = (inl p, rw p e)
  kept_cases t x xs e rest (inr m) = let (m', e') = rest m in (inr m', e')

  pub In-filter : (t : A → Bool) (xs : List A) {a : A} → In a (filter t xs) → In a xs × (t a ≡ true)
  In-filter t [] h = absurd h
  In-filter t (x ∷ xs) {a} h = elim (Bool-cases (t x)) [
    | inl e ↦ kept_cases t x xs e (In-filter t xs {a = a}) (rw e at h)
    | inr e ↦ let rest = In-filter t xs {a = a} (rw e at h) in (inr rest.0, rest.1)
  ]

  pub In-find : (t : A → Bool) (xs : List A) {a : A} → find t xs ≡ some a → In a xs × (t a ≡ true)
  In-find t [] h = cc
  In-find t (x ∷ xs) {a} h = elim (Bool-cases (t x)) [
    | inl e ↦ ground arith
    | inr e ↦ let rest = In-find t xs {a = a} (rw e at h) in (inr rest.0, rest.1)
  ]

  pub get_elem?-In : (xs : List A) (i : ℕ) {a : A} → get_elem? xs i ≡ some a → In a xs
  get_elem?-In [] i h = cc
  get_elem?-In (x ∷ xs) zero h = inl (ground arith)
  get_elem?-In (x ∷ xs) (suc i) h = inr (get_elem?-In xs i h)

  pub All-In {κ} : (P : A → Type κ) (xs : List A) {a : A} → All P xs → In a xs → P a
  All-In P [] h m = absurd m
  All-In P (x ∷ xs) h (inl e) = rw e h.0
  All-In P (x ∷ xs) h (inr m) = All-In P xs h.1 m

  pub All-map {κ} :
      (P Q : A → Type κ) (f : A → A) (xs : List A)
      → ((a : A) → P a → Q (f a))
      → All P xs
      → All Q (map f xs)
  All-map P Q f [] step h = tt
  All-map P Q f (x ∷ xs) step h = (step x h.0, All-map P Q f xs step h.1)
