-- ===== src/Shared/Strings.antt =====
-- The functions of Go's strings, strconv and sort packages that the program calls, on ASCII.
use Prim.Native.Nat.{ℕ, ◌+◌, ◌-◌, ◌*◌, ◌^◌}
use mathlib.Core.Bool.{Bool, true, false, ◌||◌, ◌&&◌}
use mathlib.Core.List.{List, [], ◌∷◌, ◌++◌}
use mathlib.Core.Option.{Option, none, some}
use global_egress.Shared.Tests.{◌==◌, nat_eq, if◌then◌else◌, ltb, leb, Bool-cases}
use global_egress.Shared.Lists.{All, filter}
use global_egress.Shared.Text.{Bytes, is_empty}
use mathlib.Core.Logic.{inl, inr}

-- The ASCII white space: tab to carriage return, and the blank.
abbrev pub is_space : ℕ → Bool
is_space c = c == 32 || (leb 9 c && leb c 13)

abbrev pub is_digit : ℕ → Bool
is_digit c = leb b'0' c && leb c b'9'

unfoldable pub trim_left : Bytes → Bytes
trim_left [] = []
trim_left (c ∷ cs) = let rest = trim_left cs in if is_space c then rest else c ∷ cs

unfoldable pub trim_right : Bytes → Bytes
trim_right [] = []
trim_right (c ∷ cs) =
    let rest = trim_right cs in if is_space c && is_empty rest then [] else c ∷ rest

-- strings.TrimSpace
unfoldable pub trim_space : Bytes → Bytes
unfolding trim_left trim_right
trim_space s = trim_right (trim_left s)

abbrev first_onto : ℕ → List Bytes → List Bytes
first_onto c [] = (c ∷ []) ∷ []
first_onto c (part ∷ parts) = (c ∷ part) ∷ parts

-- The parts between the separators, empty ones included: strings.Split with one byte.
unfoldable pub split_at : (ℕ → Bool) → Bytes → List Bytes
split_at sep [] = [] ∷ []
split_at sep (c ∷ cs) =
    let parts = split_at sep cs in if sep c then [] ∷ parts else first_onto c parts

-- strings.FieldsFunc
unfoldable pub fields_func : (ℕ → Bool) → Bytes → List Bytes
unfolding split_at
fields_func sep s = filter (λ part. if is_empty part then false else true) (split_at sep s)

-- strings.Cut with one byte: nothing when the byte is not there.
unfoldable pub cut : ℕ → Bytes → Option (Bytes × Bytes)
cut sep [] = none
cut sep (c ∷ cs) =
    let rest = cut sep cs in
    if c == sep
    then some ([], cs)
    else elim rest [ none ↦ none | some (before, after) ↦ some (c ∷ before, after) ]

-- strings.Join
unfoldable pub join : Bytes → List Bytes → Bytes
join sep [] = []
join sep (part ∷ []) = part
join sep (part ∷ next ∷ parts) = part ++ sep ++ join sep (next ∷ parts)

unfoldable pub digits : ℕ → Bytes → Option ℕ
digits acc [] = some acc
digits acc (c ∷ cs) =
    let rest = digits (acc * 10 + (c - 48)) cs in if is_digit c then rest else none

-- The number after the sign, within the bound.
unfoldable pub magnitude : ℕ → Bytes → Option ℕ
unfolding digits
magnitude bound [] = none
magnitude bound (c ∷ cs) = elim (digits 0 (c ∷ cs)) [
  | none ↦ none
  | some n ↦ if ltb n bound then some n else none
]

-- strconv.Atoi: whether it is negative and its magnitude; nothing for a text that is no int64.
unfoldable pub atoi : Bytes → Option (Bool × ℕ)
unfolding magnitude
atoi s =
    let signed = λ (neg : Bool) (bound : ℕ) (rest : Bytes).
      elim (magnitude bound rest) as (λ _. Option (Bool × ℕ)) [
        | none ↦ none
        | some n ↦ some (neg, n)
      ] in
    elim s [
      | [] ↦ none
      | c ∷ cs ↦
          if c == b'-'
          then signed true (2 ^ 63 + 1) cs
          else if c == b'+'
          then signed false (2 ^ 63) cs
          else signed false (2 ^ 63) (c ∷ cs)
    ]

-- Go's order on strings: bytes, and a prefix before what extends it.
unfoldable pub bytes_leb : Bytes → Bytes → Bool
bytes_leb [] ys = true
bytes_leb (x ∷ xs) [] = false
bytes_leb (x ∷ xs) (y ∷ ys) = ltb x y || (x == y && bytes_leb xs ys)

unfoldable pub insert_sorted : Bytes → List Bytes → List Bytes
unfolding bytes_leb
insert_sorted x [] = x ∷ []
insert_sorted x (y ∷ ys) = if bytes_leb x y then x ∷ y ∷ ys else y ∷ insert_sorted x ys

-- sort.Strings
unfoldable pub sort_strings : List Bytes → List Bytes
unfolding insert_sorted
sort_strings [] = []
sort_strings (x ∷ xs) = insert_sorted x (sort_strings xs)

All-insert_sorted :
    (P : Bytes → Type 0) (x : Bytes) (ys : List Bytes) → P x → All P ys → All P (insert_sorted x ys)
unfolding insert_sorted
All-insert_sorted P x [] p h = (p, tt)
All-insert_sorted P x (y ∷ ys) p h = elim (Bool-cases (bytes_leb x y)) [
  | inl e ↦ rw e (p, h)
  | inr e ↦ rw e (h.0, All-insert_sorted P x ys p h.1)
]

pub All-sort_strings : (P : Bytes → Type 0) (xs : List Bytes) → All P xs → All P (sort_strings xs)
unfolding sort_strings
All-sort_strings P [] h = tt
All-sort_strings P (x ∷ xs) h =
    All-insert_sorted P x (sort_strings xs) h.0 (All-sort_strings P xs h.1)
