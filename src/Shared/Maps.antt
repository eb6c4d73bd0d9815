-- ===== src/Shared/Maps.antt =====
-- Go's maps, as association lists over an equality test.
use Prim.Native.Nat.{suc, ◌≤◌}
use mathlib.Core.Path.{◌≡◌, refl, ap}
use mathlib.Core.Logic.{inl, inr}
use mathlib.Core.Bool.{Bool, true, false}
use mathlib.Core.List.{List, [], ◌∷◌}
use mathlib.Core.Option.{Option, none, some}
use native.Mathlib.Omega.{arith}
use global_egress.Shared.Tests.{Eq, ◌==◌, if◌then◌else◌, Bool-cases}
use global_egress.Shared.Lists.{length}

abbrev pub Map : Type 0 → Type 0 → Type 0
Map K V = List (K × V)

abbrev pub is_some {ℓ} : {A : Type ℓ} → Option A → Bool
is_some none = false
is_some (some a) = true

abbrev pub or_default {ℓ} : {A : Type ℓ} → Option A → A → A
or_default none d = d
or_default (some a) d = a

module _ {K V : Type 0} ⦃e : Eq K⦄ where
  unfoldable pub lookup : K → Map K V → Option V
  lookup key [] = none
  lookup key ((entry, v) ∷ rest) = if entry == key then some v else lookup key rest

  unfoldable pub insert : K → V → Map K V → Map K V
  insert key new [] = (key, new) ∷ []
  insert key new ((entry, v) ∷ rest) =
      if entry == key then (entry, new) ∷ rest else (entry, v) ∷ insert key new rest

  unfoldable pub delete : K → Map K V → Map K V
  delete key [] = []
  delete key ((entry, v) ∷ rest) =
      if entry == key then delete key rest else (entry, v) ∷ delete key rest

  pub lookup-insert :
      (set read : K) (new : V) (m : Map K V)
      → lookup read (insert set new m) ≡ (if set == read then some new else lookup read m)
  unfolding insert lookup
  lookup-insert set read new [] = refl
  lookup-insert set read new ((entry, v) ∷ rest) = ground (
    arith,
    lookup-insert set read new rest,
    e.beq_iff entry set,
    e.beq_iff entry read,
    e.beq_iff set read,
  )

  pub lookup-delete :
      (gone read : K) (m : Map K V)
      → lookup read (delete gone m) ≡ (if gone == read then none else lookup read m)
  unfolding delete lookup
  lookup-delete gone read [] = ground arith
  lookup-delete gone read ((entry, v) ∷ rest) = ground (
    arith,
    lookup-delete gone read rest,
    e.beq_iff entry gone,
    e.beq_iff entry read,
    e.beq_iff gone read,
  )

  pub length-insert :
      (k : K) (v : V) (m : Map K V)
      → length (insert k v m) ≡ (if is_some (lookup k m) then length m else suc (length m))
  unfolding lookup insert
  length-insert k v [] = refl
  length-insert k v ((i, w) ∷ m) = ground (arith, length-insert k v m)

  pub length-delete-le : (k : K) (m : Map K V) → length (delete k m) ≤ length m
  unfolding delete
  length-delete-le k [] = omega arith
  length-delete-le k ((i, w) ∷ m) = ground (arith, length-delete-le k m)

module _ {K V : Type 0} where
  -- The entries that pass a test, which is what a loop with `delete` leaves.
  unfoldable pub retain : (K → V → Bool) → Map K V → Map K V
  retain t [] = []
  retain t ((k, v) ∷ m) = if t k v then (k, v) ∷ retain t m else retain t m

  unfoldable pub map_values : (V → V) → Map K V → Map K V
  map_values f [] = []
  map_values f ((k, v) ∷ m) = (k, f v) ∷ map_values f m

  pub length-retain-le : (t : K → V → Bool) (m : Map K V) → length (retain t m) ≤ length m
  unfolding retain
  length-retain-le t [] = omega arith
  length-retain-le t ((k, v) ∷ m) = ground (arith, length-retain-le t m)

module _ {K V : Type 0} ⦃e : Eq K⦄ where
  pub lookup-retain :
      (t : K → V → Bool) (k : K) (m : Map K V) {v : V}
      → lookup k (retain t m) ≡ some v
      → t k v ≡ true
  unfolding lookup retain
  lookup-retain t k [] h = cc
  lookup-retain t k ((j, w) ∷ m) {v} h = elim (Bool-cases (t j w)) [
    | inl p ↦ ground (arith, e.beq_iff j k, lookup-retain t k m {v = v})
    | inr p ↦ lookup-retain t k m {v = v} (rw p at h)
  ]

  pub lookup-retain_kept :
      (t : K → V → Bool) (k : K) (m : Map K V) {v : V}
      → lookup k m ≡ some v
      → t k v ≡ true
      → lookup k (retain t m) ≡ some v
  unfolding lookup retain
  lookup-retain_kept t k [] h p = cc
  lookup-retain_kept t k ((j, w) ∷ m) {v} h p = elim (Bool-cases (t j w)) [
    | inl q ↦ rw q (ground (arith, e.beq_iff j k, lookup-retain_kept t k m {v = v}))
    | inr q ↦ rw q (ground (arith, e.beq_iff j k, lookup-retain_kept t k m {v = v}))
  ]

  pub lookup-map_values-none :
      (f : V → V) (k : K) (m : Map K V) → lookup k m ≡ none → lookup k (map_values f m) ≡ none
  unfolding lookup map_values
  lookup-map_values-none f k [] h = refl
  lookup-map_values-none f k ((j, w) ∷ m) h = ground (arith, lookup-map_values-none f k m)

  pub lookup-map_values :
      (f : V → V) (k : K) (m : Map K V) {v : V}
      → lookup k m ≡ some v
      → lookup k (map_values f m) ≡ some (f v)
  unfolding lookup map_values
  lookup-map_values f k [] h = cc
  lookup-map_values f k ((j, w) ∷ m) {v} h = elim (Bool-cases (e.beq j k)) [
    | inl same ↦ rw same (ap some (ap f (ground arith)))
    | inr other ↦ rw other (lookup-map_values f k m {v = v} (ground arith))
  ]
