-- ===== src/Georoute/Costs.antt =====
-- What the costs say: the same region is nearest, and nothing is beyond the scale.
use global_egress.Shared.{
  ℕ, ◌≤◌, ◌≡◌, ◌≢◌, ◌↔◌, refl, Bool, true, false, not, ◌&&◌, ◌||◌, List, [], ◌∷◌, any, In, inl, inr,
  Bytes, ◌==◌, nat_eq, leb, if◌then◌else◌, arith, subst, sym,
}
use global_egress.Georoute.{
  Region, unknown, east_asia, south_asia, oceania, europe, middle_east, africa, north_america,
  south_america, region_eq, regions, region_of, region_cost, cost,
}

In-regions : (r : Region) → In r regions
In-regions unknown = inl refl
In-regions east_asia = inr (inl refl)
In-regions south_asia = inr (inr (inl refl))
In-regions oceania = inr (inr (inr (inl refl)))
In-regions europe = inr (inr (inr (inr (inl refl))))
In-regions middle_east = inr (inr (inr (inr (inr (inl refl)))))
In-regions africa = inr (inr (inr (inr (inr (inr (inl refl))))))
In-regions north_america = inr (inr (inr (inr (inr (inr (inr (inl refl)))))))
In-regions south_america = inr (inr (inr (inr (inr (inr (inr (inr (inl refl))))))))

any-not :
    {A : Type 0} (t : A → Bool) (xs : List A) (x : A)
    → any (λ y. not (t y)) xs ≡ false
    → In x xs
    → t x ≡ true
any-not t [] x h m = absurd m
any-not t (y ∷ ys) x h (inl e) = subst (λ z. t z ≡ true) (sym e) (ground arith)
any-not t (y ∷ ys) x h (inr m) = any-not t ys x (ground arith) m

-- Both are known and the same exactly at cost 0, and no cost is above 7.
fits : Region → Region → Bool
fits a b =
    leb (region_cost a b) 7
    && (if region_cost a b == 0 then a == b && not (a == unknown) else not (a == b) || a == unknown)

all_fit : any (λ a. not (not (any (λ b. not (fits a b)) regions))) regions ≡ false
unfolding fits region_cost
all_fit = refl

fits-all : (a b : Region) → fits a b ≡ true
fits-all a b =
    any-not (fits a) regions b
      (is_false_of_not (any (λ b. not (fits a b)) regions)
        (any-not (λ a. not (any (λ b. not (fits a b)) regions)) regions a all_fit (In-regions a)))
      (In-regions b)
  where
    is_false_of_not : (x : Bool) → not x ≡ true → x ≡ false
    is_false_of_not x h = ground arith

is_false : (x : Bool) → x ≢ true → x ≡ false
is_false true h = absurd (h refl)
is_false false h = refl

read_fits :
    (n : ℕ) (same obscure : Bool)
    → (leb n 7 && (if n == 0 then same && not obscure else not same || obscure)) ≡ true
    → (n ≤ 7) × ((n ≡ 0) ↔ ((same ≡ true) × (obscure ≡ false)))
read_fits n same obscure h = ground arith

-- Whatever the two countries are: the cost is at most 7, and it is 0 exactly when both countries are
-- known and in the same region.
pub cost-nearest :
    (entry_country exit_country : Bytes)
    → (cost entry_country exit_country ≤ 7)
      × ((cost entry_country exit_country ≡ 0) ↔ (
          (region_of entry_country ≡ region_of exit_country) × (region_of entry_country ≢ unknown)))
unfolding cost fits
cost-nearest entry_country exit_country =
    let a = region_of entry_country in
    let b = region_of exit_country in
    let (bounded, nearest) = read_fits (region_cost a b) (a == b) (a == unknown) (fits-all a b) in
    (
      bounded,
      (
        λ zero_cost.
            let (same, known) = nearest.0 zero_cost in
            ((region_eq.beq_iff a b).0 same, λ e. cc (known, (region_eq.beq_iff a unknown).1 e)),
        λ (same, known). nearest.1 (
          (region_eq.beq_iff a b).1 same,
          is_false (a == unknown) (λ e. known ((region_eq.beq_iff a unknown).0 e)),
        ),
      ),
    )
