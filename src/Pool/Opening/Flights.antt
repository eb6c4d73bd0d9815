-- ===== src/Pool/Opening/Flights.antt =====
-- What an update of one slot does to the number of tunnels that are open or being opened.
use global_egress.Shared.{
  ◌+◌, ◌≤◌, ◌<◌, ◌≡◌, ◌≢◌, refl, ap, sym, subst, ◌∙◌, Bool, true, false, ◌&&◌, ◌||◌, List, [], ◌∷◌,
  Option, none, some, Bytes, arith, All, Bool-cases, inl, inr, In, ◌⊎◌, if◌then◌else◌, count_if,
  bytes_eq, ◌==◌, bytes_beq_iff, ltb,
}
use global_egress.Pool.State.{SlotState}
use global_egress.Pool.Budget.{update_slots, close_slot, is_idle, older, victim}
use global_egress.Pool.Opening.{start_opening}
use global_egress.Pool.Setup.Ascending.{HasOwnIds}

-- The slot has a tunnel, or is getting one.
abbrev pub holds : SlotState → Bool
holds s = s.tunnel || s.opening

abbrev pub IsApart : SlotState → Type 0
IsApart s = s.tunnel && s.opening ≡ false

abbrev Keeps : (SlotState → SlotState) → Type 0
Keeps f = (s : SlotState) → (f s).spec ≡ s.spec

pub All-update_slots :
    (P : SlotState → Type 0) (id : Bytes) (f : SlotState → SlotState) (ss : List SlotState)
    → ((s : SlotState) → s.spec.id ≡ id → P s → P (f s))
    → All P ss
    → All P (update_slots id f ss)
unfolding update_slots
All-update_slots P id f [] step h = tt
All-update_slots P id f (s ∷ ss) step (p, h) = elim (Bool-cases (s.spec.id == id)) [
  | inl e ↦ rw e (step s ((bytes_beq_iff s.spec.id id).0 e) p, All-update_slots P id f ss step h)
  | inr e ↦ rw e (p, All-update_slots P id f ss step h)
]

-- The same for a property that the update turns into another.
pub All-turn_slots :
    (P Q : SlotState → Type 0) (id : Bytes) (f : SlotState → SlotState) (ss : List SlotState)
    → ((s : SlotState) → s.spec.id ≡ id → P s → Q (f s))
    → ((s : SlotState) → P s → Q s)
    → All P ss
    → All Q (update_slots id f ss)
unfolding update_slots
All-turn_slots P Q id f [] step stay h = tt
All-turn_slots P Q id f (s ∷ ss) step stay (p, h) = elim (Bool-cases (s.spec.id == id)) [
  | inl e ↦
      rw e (step s ((bytes_beq_iff s.spec.id id).0 e) p, All-turn_slots P Q id f ss step stay h)
  | inr e ↦ rw e (stay s p, All-turn_slots P Q id f ss step stay h)
]

pub HasOwnIds-update_slots :
    (id : Bytes) (f : SlotState → SlotState) (ss : List SlotState)
    → Keeps f
    → HasOwnIds ss
    → HasOwnIds (update_slots id f ss)
unfolding update_slots
HasOwnIds-update_slots id f [] keeps h = tt
HasOwnIds-update_slots id f (s ∷ ss) keeps (o, own) = elim (Bool-cases (s.spec.id == id)) [
  | inl e ↦ rw e (
    All-update_slots _ id f ss (λ t _ d. λ same. d (same ∙ ap (λ x. x.id) (keeps t)))
        (own_as (f s) (sym (ap (λ x. x.id) (keeps s))) ss o),
    HasOwnIds-update_slots id f ss keeps own,
  )
  | inr e ↦ rw e (
    All-update_slots _ id f ss (λ t _ d. λ same. d (same ∙ ap (λ x. x.id) (keeps t))) o,
    HasOwnIds-update_slots id f ss keeps own,
  )
]
  where
    own_as :
        (t : SlotState)
        → s.spec.id ≡ t.spec.id
        → (us : List SlotState) → All (λ u. s.spec.id ≢ u.spec.id) us
        → All (λ u. t.spec.id ≢ u.spec.id) us
    own_as t same [] h = tt
    own_as t same (u ∷ us) (d, h) = (λ e. d (same ∙ e), own_as t same us h)

update_slots-absent :
    (id : Bytes) (f : SlotState → SlotState) (ss : List SlotState)
    → All (λ t. id ≢ t.spec.id) ss
    → update_slots id f ss ≡ ss
unfolding update_slots
update_slots-absent id f [] h = refl
update_slots-absent id f (s ∷ ss) (d, h) = elim (Bool-cases (s.spec.id == id)) [
  | inl e ↦ absurd (d (sym ((bytes_beq_iff s.spec.id id).0 e)))
  | inr e ↦ rw e (ap (λ r. s ∷ r) (update_slots-absent id f ss h))
]

pub start-count :
    (id : Bytes) (ss : List SlotState)
    → HasOwnIds ss
    → count_if holds (update_slots id start_opening ss) ≤ count_if holds ss + 1
unfolding update_slots
start-count id [] own = omega arith
start-count id (s ∷ ss) (o, own) = elim (Bool-cases (s.spec.id == id)) [
  | inl e ↦
      rw
        (
          e,
          update_slots-absent id start_opening ss
              (subst (λ i. All (λ t. i ≢ t.spec.id) ss) ((bytes_beq_iff s.spec.id id).0 e) o),
        )
        (ground arith)
  | inr e ↦ rw e (ground (arith, start-count id ss own))
]

-- An update that does not turn a slot into one that holds a tunnel.
pub update-count :
    (id : Bytes) (f : SlotState → SlotState) (ss : List SlotState)
    → All (λ s. s.spec.id ≡ id → holds s ≡ false → holds (f s) ≡ false) ss
    → count_if holds (update_slots id f ss) ≤ count_if holds ss
unfolding update_slots
update-count id f [] h = omega arith
update-count id f (s ∷ ss) (k, h) = elim (Bool-cases (s.spec.id == id)) [
  | inl e ↦ rw e (ground (arith, update-count id f ss h, k ((bytes_beq_iff s.spec.id id).0 e)))
  | inr e ↦ rw e (ground (arith, update-count id f ss h))
]

pub close_slot-holds : (s : SlotState) → holds s ≡ false → holds (close_slot s) ≡ false
unfolding close_slot
close_slot-holds s h = ground (arith, h)

close_slot-frees : (s : SlotState) → IsApart s → s.tunnel ≡ true → holds (close_slot s) ≡ false
unfolding close_slot
close_slot-frees s a h = ground (arith, a, h)

-- Closing the tunnel of an idle slot frees its place.
pub close-count :
    (v : SlotState) (ss : List SlotState)
    → In v ss
    → v.tunnel ≡ true
    → All IsApart ss
    → count_if holds (update_slots v.spec.id close_slot ss) < count_if holds ss
unfolding update_slots
close-count v [] m open_now apart = absurd m
close-count v (s ∷ ss) (inl same) open_now (a, apart) =
    subst
      (λ x. count_if holds (update_slots x.spec.id close_slot (s ∷ ss)) < count_if holds (s ∷ ss))
      (sym same) (head (subst (λ x. x.tunnel ≡ true) same open_now))
  where
    rest : count_if holds (update_slots s.spec.id close_slot ss) ≤ count_if holds ss
    rest = update-count s.spec.id close_slot ss (closings ss)
      where
        closings :
            (ts : List SlotState)
            → All (λ t. t.spec.id ≡ s.spec.id → holds t ≡ false → holds (close_slot t) ≡ false) ts
        closings [] = tt
        closings (t ∷ ts) = (λ _ h. close_slot-holds t h, closings ts)

    closed : s.tunnel ≡ true → holds (close_slot s) ≡ false
    closed h = close_slot-frees s a h

    head :
        s.tunnel ≡ true
        → count_if holds (update_slots s.spec.id close_slot (s ∷ ss)) < count_if holds (s ∷ ss)
    head h =
        let itself : (s.spec.id == s.spec.id) ≡ true = (bytes_beq_iff s.spec.id s.spec.id).1 refl in
        rw itself (ground (arith, closed h, h, rest))
close-count v (s ∷ ss) (inr m) open_now (a, apart) = elim (Bool-cases (s.spec.id == v.spec.id)) [
  | inl e ↦ rw e (ground (arith, close_slot-holds s, close-count v ss m open_now apart))
  | inr e ↦ rw e (ground (arith, close-count v ss m open_now apart))
]

same_some : {a b : SlotState} → ◌≡◌ {A = Option SlotState} (some a) (some b) → b ≡ a
same_some h = cc

older_choice :
    (s : SlotState) (best : Option SlotState) (v : SlotState)
    → older s best ≡ some v
    → (best ≡ some v) ⊎ (v ≡ s)
unfolding older
older_choice s none v e = inr (same_some e)
older_choice s (some w) v e = elim (Bool-cases (ltb s.last_used w.last_used)) [
  | inl before ↦ inr (same_some (rw before at e))
  | inr after ↦ inl (rw after at e)
]

is_idle-tunnel : (s : SlotState) → is_idle s ≡ true → s.tunnel ≡ true
unfolding is_idle
is_idle-tunnel s h = ground (arith, h)

idle_choice :
    (s : SlotState) (best : Option SlotState) (v : SlotState)
    → (if is_idle s then older s best else best) ≡ some v
    → (best ≡ some v) ⊎ ((v ≡ s) × (s.tunnel ≡ true))
idle_choice s best v h = elim (Bool-cases (is_idle s)) [
  | inr busy ↦ inl (rw busy at h)
  | inl idle ↦ elim (older_choice s best v (rw idle at h)) [
    | inl before ↦ inl before
    | inr same ↦ inr (same, is_idle-tunnel s idle)
  ]
]

pub victim-In :
    (ss : List SlotState) (best : Option SlotState) (v : SlotState)
    → victim ss best ≡ some v
    → (best ≡ some v) ⊎ (In v ss × (v.tunnel ≡ true))
unfolding victim
victim-In [] best v h = inl h
victim-In (s ∷ ss) best v h = elim (victim-In ss (if is_idle s then older s best else best) v h) [
  | inr (m, open_now) ↦ inr (inr m, open_now)
  | inl now ↦ elim (idle_choice s best v now) [
    | inl before ↦ inl before
    | inr (same, open_now) ↦ inr (inl same, ap (λ x. x.tunnel) same ∙ open_now)
  ]
]
