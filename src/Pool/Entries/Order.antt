-- ===== src/Pool/Entries/Order.antt =====
-- Which entry comes first.
use global_egress.Shared.{
  ℕ, ◌≤◌, ◌≡◌, ◌⊎◌, inl, inr, subst, Bool, true, false, not, List, [], ◌∷◌, Bytes, bytes_eq, nat_eq,
  arith, if◌then◌else◌, ◌==◌, ltb, Bool-cases, In, All, All-In,
}
use global_egress.Pool.State.{EntryState, Pool}
use global_egress.Pool.Entries.{
  score, entry_less, insert_entry, sort_entries, enabled_entries, ordered_entries,
}

abbrev Best : Bytes → List EntryState → Type 0
Best exit_country [] = Unit
Best exit_country (e ∷ es) = All (λ x. score e exit_country ≤ score x exit_country) (e ∷ es)

by_score : (m n : ℕ) (tie : Bool) → (if not (m == n) then ltb m n else tie) ≡ true → m ≤ n
by_score m n tie h = ground arith

not_by_score : (m n : ℕ) (tie : Bool) → (if not (m == n) then ltb m n else tie) ≡ false → n ≤ m
not_by_score m n tie h = ground arith

less_score : (c : Bytes) (a b : EntryState) → entry_less c a b ≡ true → score a c ≤ score b c
unfolding entry_less
less_score c a b h = by_score (score a c) (score b c) _ h

not_less_score : (c : Bytes) (a b : EntryState) → entry_less c a b ≡ false → score b c ≤ score a c
unfolding entry_less
not_less_score c a b h = not_by_score (score a c) (score b c) _ h

All-weaker :
    (c : Bytes) (a b : EntryState) (es : List EntryState)
    → score a c ≤ score b c
    → All (λ x. score b c ≤ score x c) es
    → All (λ x. score a c ≤ score x c) es
All-weaker c a b [] h all = tt
All-weaker c a b (x ∷ xs) h all = (omega (arith, h, all.0), All-weaker c a b xs h all.1)

All-insert_entry :
    (P : EntryState → Type 0) (c : Bytes) (e : EntryState) (es : List EntryState)
    → P e
    → All P es
    → All P (insert_entry c e es)
unfolding insert_entry
All-insert_entry P c e [] p all = (p, tt)
All-insert_entry P c e (x ∷ xs) p all = elim (Bool-cases (entry_less c x e)) [
  | inl less ↦ rw less (all.0, All-insert_entry P c e xs p all.1)
  | inr more ↦ rw more (p, all)
]

In-insert_entry :
    (c : Bytes) (e t : EntryState) (es : List EntryState)
    → (t ≡ e) ⊎ In t es
    → In t (insert_entry c e es)
unfolding insert_entry
In-insert_entry c e t [] (inl same) = inl same
In-insert_entry c e t [] (inr m) = absurd m
In-insert_entry c e t (x ∷ xs) m = elim (Bool-cases (entry_less c x e)) [
  | inl less ↦ rw less (elim m [
    | inl same ↦ inr (In-insert_entry c e t xs (inl same))
    | inr (inl here) ↦ inl here
    | inr (inr there) ↦ inr (In-insert_entry c e t xs (inr there))
  ])
  | inr more ↦ rw more m
]

Best-insert_entry :
    (c : Bytes) (e : EntryState) (es : List EntryState) → Best c es → Best c (insert_entry c e es)
unfolding insert_entry
Best-insert_entry c e [] best = (omega arith, tt)
Best-insert_entry c e (x ∷ xs) best = elim (Bool-cases (entry_less c x e)) [
  | inl less ↦
      rw less (
        best.0,
        All-insert_entry (λ y. score x c ≤ score y c) c e xs (less_score c x e less) best.1,
      )
  | inr more ↦ rw more (omega arith, All-weaker c e x (x ∷ xs) (not_less_score c x e more) best)
]

sort_entries-Best : (c : Bytes) (es : List EntryState) → Best c (sort_entries c es)
unfolding sort_entries
sort_entries-Best c [] = tt
sort_entries-Best c (e ∷ es) = Best-insert_entry c e (sort_entries c es) (sort_entries-Best c es)

In-sort_entries :
    (c : Bytes) (t : EntryState) (es : List EntryState) → In t es → In t (sort_entries c es)
unfolding sort_entries
In-sort_entries c t [] m = absurd m
In-sort_entries c t (e ∷ es) (inl same) = In-insert_entry c e t (sort_entries c es) (inl same)
In-sort_entries c t (e ∷ es) (inr m) =
    In-insert_entry c e t (sort_entries c es) (inr (In-sort_entries c t es m))

In-enabled :
    (now : ℕ) (t : EntryState) (es : List EntryState)
    → In t es
    → t.disabled_until ≤ now
    → In t (enabled_entries now es)
unfolding enabled_entries
In-enabled now t [] m h = absurd m
In-enabled now t (e ∷ es) (inl same) h =
    let on : ltb now e.disabled_until ≡ false =
      subst (λ x. ltb now x.disabled_until ≡ false) same (ground arith) in
    rw on (inl same)
In-enabled now t (e ∷ es) (inr m) h = elim (Bool-cases (ltb now e.disabled_until)) [
  | inl off ↦ rw off (In-enabled now t es m h)
  | inr on ↦ rw on (inr (In-enabled now t es m h))
]

Best-least :
    (c : Bytes) (e : EntryState) (rest sorted : List EntryState) (t : EntryState)
    → sorted ≡ e ∷ rest
    → Best c sorted
    → In t sorted
    → score e c ≤ score t c
Best-least c e rest sorted t same best m =
    All-In (λ x. score e c ≤ score x c) (e ∷ rest) (subst (Best c) same best) (subst (In t) same m)

-- Unless the draw explores, the first entry that is tried for an exit country is the best one: no
-- entry in rotation has a lower score, measured or guessed, for that country.
pub ordered_entries-best :
    (p : Pool) (exit_country : Bytes) (now : ℕ) (e : EntryState) (rest : List EntryState)
    (t : EntryState)
    → ordered_entries false exit_country now p ≡ e ∷ rest
    → In t p.entries
    → t.disabled_until ≤ now
    → score e exit_country ≤ score t exit_country
unfolding ordered_entries
ordered_entries-best p exit_country now e rest t first m on =
    Best-least exit_country e rest _ t first
      (sort_entries-Best exit_country (enabled_entries now p.entries))
      (In-sort_entries exit_country t (enabled_entries now p.entries)
        (In-enabled now t p.entries m on))
