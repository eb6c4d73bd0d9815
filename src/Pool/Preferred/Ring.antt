-- ===== src/Pool/Preferred/Ring.antt =====
-- The ring of preferred exits stays small and names each address once.
use global_egress.Shared.{
  ℕ, zero, suc, ◌-◌, ◌≤◌, ◌<◌, ◌≡◌, ◌⊎◌, refl, sym, ap, subst, List, [], ◌∷◌, ◌++◌, map, Bytes,
  bytes_eq, Addr, addr_eq, addr_beq_iff, if◌then◌else◌, ◌==◌, nat_eq, arith, Bool-cases, inl, inr,
  length, length-append, length-drop, drop, In, Option, none, some, ltb, false,
}
use global_egress.Pool.State.{PreferredExit}
use global_egress.Pool.Preferred.{renew_first, keep_last, remember}

abbrev pub ips : List PreferredExit → List Addr
ips = map (λ x. x.public_ip)

abbrev pub Distinct : List Addr → Type 0
Distinct [] = Unit
Distinct (x ∷ xs) = (¬ In x xs) × Distinct xs

-- How many exits a destination keeps: 0 asks for the default.
abbrev pub ring_size : ℕ → ℕ
ring_size max = if max == 0 then 8 else max

pub record IsRing (max : ℕ) (xs : List PreferredExit) : Type 0 where
  pub bounded : length xs ≤ ring_size max
  pub distinct : Distinct (ips xs)

abbrev Renews : Bytes → Addr → ℕ → List PreferredExit → Option (List PreferredExit) → Type 0
Renews slot_id ip until xs none = ¬ In ip (ips xs)
Renews slot_id ip until xs (some ys) =
    (ips ys ≡ ips xs)
    × (length ys ≡ length xs)
    × In (record { slot_id = slot_id; public_ip = ip; expires_at = until }) ys

absent_cons :
    (ip : Addr) (x : PreferredExit) (xs : List PreferredExit)
    → ¬ In ip (ips xs)
    → (x.public_ip == ip) ≡ false
    → ¬ In ip (ips (x ∷ xs))
absent_cons ip x xs h other (inl e) = cc ((addr_beq_iff x.public_ip ip).1 (sym e))
absent_cons ip x xs h other (inr m) = h m

renew_first-Renews :
    (slot_id : Bytes) (ip : Addr) (until : ℕ) (xs : List PreferredExit)
    → Renews slot_id ip until xs (renew_first slot_id ip until xs)
unfolding renew_first
renew_first-Renews slot_id ip until [] = λ m. m
renew_first-Renews slot_id ip until (x ∷ xs) =
    go (renew_first slot_id ip until xs) refl (renew_first-Renews slot_id ip until xs)
  where
    go :
        (o : Option (List PreferredExit))
        → renew_first slot_id ip until xs ≡ o
        → Renews slot_id ip until xs o
        → Renews slot_id ip until (x ∷ xs) (renew_first slot_id ip until (x ∷ xs))
    go o e h = elim (Bool-cases (x.public_ip == ip)) [
      | inl same ↦
          let p : x.public_ip ≡ ip = (addr_beq_iff x.public_ip ip).0 same in
          rw same (
            refl,
            refl,
            inl (λ i. record { slot_id = slot_id; public_ip = sym p i; expires_at = until }),
          )
      | inr other ↦ rw (other, e) (later o h other)
    ]
      where
        later :
            (o : Option (List PreferredExit))
            → Renews slot_id ip until xs o
            → (x.public_ip == ip) ≡ false
            → Renews slot_id ip until (x ∷ xs) (elim o [ none ↦ none | some ys ↦ some (x ∷ ys) ])
        later none h other = absent_cons ip x xs h other
        later (some ys) h other = (ap (◌∷◌ x.public_ip) h.0, ap suc h.1, inr h.2)

In-append :
    (a : Addr) (xs ys : List PreferredExit) → In a (ips (xs ++ ys)) → In a (ips xs) ⊎ In a (ips ys)
In-append a [] ys m = inr m
In-append a (x ∷ xs) ys (inl e) = inl (inl e)
In-append a (x ∷ xs) ys (inr m) = elim (In-append a xs ys m) [ inl l ↦ inl (inr l) | inr r ↦ inr r ]

Distinct-snoc :
    (xs : List PreferredExit) (e : PreferredExit)
    → Distinct (ips xs)
    → ¬ In e.public_ip (ips xs)
    → Distinct (ips (xs ++ e ∷ []))
Distinct-snoc [] e d h = (λ m. m, tt)
Distinct-snoc (x ∷ xs) e d h = (
  λ m. elim (In-append x.public_ip xs (e ∷ []) m) [
    | inl before ↦ d.0 before
    | inr (inl same) ↦ h (inl (sym same))
    | inr (inr nowhere) ↦ nowhere
  ],
  Distinct-snoc xs e d.1 (λ m. h (inr m)),
)

Distinct-drop : (n : ℕ) (xs : List PreferredExit) → Distinct (ips xs) → Distinct (ips (drop n xs))
Distinct-drop zero xs d = d
Distinct-drop (suc n) [] d = d
Distinct-drop (suc n) (x ∷ xs) d = Distinct-drop n xs d.1

-- Dropping from the front leaves the last entry.
In-drop_snoc :
    (n : ℕ) (xs : List PreferredExit) (e : PreferredExit)
    → n ≤ length xs
    → In e (drop n (xs ++ e ∷ []))
In-drop_snoc zero [] e h = inl refl
In-drop_snoc zero (x ∷ xs) e h = inr (In-drop_snoc zero xs e (omega arith))
In-drop_snoc (suc n) [] e h = absurd (omega arith)
In-drop_snoc (suc n) (x ∷ xs) e h = In-drop_snoc n xs e (omega arith)

keep_last-IsRing :
    (max : ℕ) (xs : List PreferredExit) (e : PreferredExit)
    → 0 < ring_size max
    → Distinct (ips (xs ++ e ∷ []))
    → IsRing max (keep_last (ring_size max) (xs ++ e ∷ []))
      × In e (keep_last (ring_size max) (xs ++ e ∷ []))
unfolding keep_last
keep_last-IsRing max xs e pos d = elim (Bool-cases (ltb (ring_size max) (length (xs ++ e ∷ [])))) [
  | inl long ↦ rw long (
    record {
      bounded =
          ground (arith, length-drop {0} (length (xs ++ e ∷ []) - ring_size max) (xs ++ e ∷ []));
      distinct = Distinct-drop (length (xs ++ e ∷ []) - ring_size max) (xs ++ e ∷ []) d;
    },
    In-drop_snoc (length (xs ++ e ∷ []) - ring_size max) xs e
        (omega (arith, length-append {0} xs (e ∷ []))),
  )
  | inr short ↦
      rw short (record { bounded = ground arith; distinct = d }, In-drop_snoc 0 xs e (omega arith))
]

-- Remembering an exit keeps the ring within its size and its addresses distinct, and the exit is in it
-- afterwards, with the slot and the term of the call.
pub remember-IsRing :
    (slot_id : Bytes) (ip : Addr) (until max : ℕ) (xs : List PreferredExit)
    → IsRing max xs
    → IsRing max (remember slot_id ip until max xs)
      × In
          (record { slot_id = slot_id; public_ip = ip; expires_at = until })
          (remember slot_id ip until max xs)
unfolding remember
remember-IsRing slot_id ip until max xs r =
    go (renew_first slot_id ip until xs) refl (renew_first-Renews slot_id ip until xs)
  where
    go :
        (o : Option (List PreferredExit))
        → renew_first slot_id ip until xs ≡ o
        → Renews slot_id ip until xs o
        → IsRing max (remember slot_id ip until max xs)
          × In
              (record { slot_id = slot_id; public_ip = ip; expires_at = until })
              (remember slot_id ip until max xs)
    go none e h =
        rw (e, remember)
          (keep_last-IsRing max xs _ (ground arith) (Distinct-snoc xs _ r.distinct h))
    go (some ys) e h =
        rw (e, remember)
          (
            record {
              bounded = omega (arith, r.bounded, h.1);
              distinct = subst Distinct (sym h.0) r.distinct;
            },
            h.2,
          )
