-- ===== src/Pool/Setup/Ascending.antt =====
-- The slots of a pool stand in the order of their IDs, none of which occurs twice.
use global_egress.Shared.{
  ◌≡◌, ◌≢◌, sym, true, false, List, [], ◌∷◌, Bytes, bytes_leb, arith, All, Bool-cases, inl, inr,
  bytes_eq, bytes_beq_iff,
}
use global_egress.Pool.State.{SlotState}
use global_egress.Pool.Setup.{insert_slot, sort_slots, has_id}

bytes_leb_total : (a b : Bytes) → bytes_leb a b ≡ false → bytes_leb b a ≡ true
unfolding bytes_leb
bytes_leb_total [] ys h = ground arith
bytes_leb_total (x ∷ xs) [] h = ground arith
bytes_leb_total (x ∷ xs) (y ∷ ys) h = ground (arith, h, bytes_leb_total xs ys)

bytes_leb_trans :
    (a b c : Bytes) → bytes_leb a b ≡ true → bytes_leb b c ≡ true → bytes_leb a c ≡ true
unfolding bytes_leb
bytes_leb_trans [] b c h k = ground arith
bytes_leb_trans (x ∷ xs) [] c h k = ground (arith, h)
bytes_leb_trans (x ∷ xs) (y ∷ ys) [] h k = ground (arith, k)
bytes_leb_trans (x ∷ xs) (y ∷ ys) (z ∷ zs) h k = ground (arith, h, k, bytes_leb_trans xs ys zs)

abbrev pub IsBefore : SlotState → SlotState → Type 0
IsBefore s t = (bytes_leb s.spec.id t.spec.id ≡ true) × (s.spec.id ≢ t.spec.id)

abbrev pub IsAscending : List SlotState → Type 0
IsAscending [] = Unit
IsAscending (s ∷ ss) = All (IsBefore s) ss × IsAscending ss

-- No two slots have one ID.
abbrev pub HasOwnIds : List SlotState → Type 0
HasOwnIds [] = Unit
HasOwnIds (s ∷ ss) = All (λ t. s.spec.id ≢ t.spec.id) ss × HasOwnIds ss

pub All-insert_slot :
    (P : SlotState → Type 0) (s : SlotState) (ts : List SlotState)
    → P s
    → All P ts
    → All P (insert_slot s ts)
unfolding insert_slot
All-insert_slot P s [] p h = (p, tt)
All-insert_slot P s (t ∷ ts) p h = elim (Bool-cases (bytes_leb s.spec.id t.spec.id)) [
  | inl e ↦ rw e (p, h)
  | inr e ↦ rw e (h.0, All-insert_slot P s ts p h.1)
]

pub All-sort_slots :
    (P : SlotState → Type 0) (ss : List SlotState) → All P ss → All P (sort_slots ss)
unfolding sort_slots
All-sort_slots P [] h = tt
All-sort_slots P (s ∷ ss) h = All-insert_slot P s (sort_slots ss) h.0 (All-sort_slots P ss h.1)

IsBefore-All :
    (s t : SlotState) (ts : List SlotState)
    → bytes_leb s.spec.id t.spec.id ≡ true
    → All (IsBefore t) ts
    → All (λ u. s.spec.id ≢ u.spec.id) ts
    → All (IsBefore s) ts
IsBefore-All s t [] h a own = tt
IsBefore-All s t (u ∷ us) h (b, a) (o, own) =
    ((bytes_leb_trans s.spec.id t.spec.id u.spec.id h b.0, o), IsBefore-All s t us h a own)

insert_slot-IsAscending :
    (s : SlotState) (ts : List SlotState)
    → IsAscending ts
    → All (λ t. s.spec.id ≢ t.spec.id) ts
    → IsAscending (insert_slot s ts)
unfolding insert_slot
insert_slot-IsAscending s [] a own = (tt, tt)
insert_slot-IsAscending s (t ∷ ts) (b, a) (o, own) =
    elim (Bool-cases (bytes_leb s.spec.id t.spec.id)) [
      | inl e ↦ rw e (((e, o), IsBefore-All s t ts e b own), (b, a))
      | inr e ↦ rw e (
        All-insert_slot (IsBefore t) s ts
            (bytes_leb_total s.spec.id t.spec.id e, λ same. o (sym same)) b,
        insert_slot-IsAscending s ts a own,
      )
    ]

pub sort_slots-IsAscending : (ss : List SlotState) → HasOwnIds ss → IsAscending (sort_slots ss)
unfolding sort_slots
sort_slots-IsAscending [] own = tt
sort_slots-IsAscending (s ∷ ss) (o, own) =
    insert_slot-IsAscending s (sort_slots ss) (sort_slots-IsAscending ss own)
      (All-sort_slots (λ t. s.spec.id ≢ t.spec.id) ss o)

-- A slot that is not found under an ID has another one.
pub has_id-All :
    (id : Bytes) (ss : List SlotState) → has_id id ss ≡ false → All (λ t. id ≢ t.spec.id) ss
has_id-All id [] h = tt
has_id-All id (s ∷ ss) h = (
  λ same. absurd (ground (arith, h, same, bytes_beq_iff s.spec.id id)),
  has_id-All id ss (ground (arith, h)),
)
