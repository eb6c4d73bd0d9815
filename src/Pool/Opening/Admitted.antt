-- ===== src/Pool/Opening/Admitted.antt =====
-- What a caller that is admitted to open finds, and what it leaves of the limit on open tunnels.
use global_egress.Shared.{
  ℕ, ◌≡◌, ◌≢◌, refl, sym, subst, ◌∙◌, Bool, true, false, List, [], ◌∷◌, Option, none, some, Bytes,
  arith, All, All-In, Bool-cases, inl, inr, In, In-find, if◌then◌else◌, bytes_eq, ◌==◌,
  bytes_beq_iff, Result, ok, err, nat_eq,
}
use global_egress.Pool.State.{SlotState, Pool, Error, unknown_slot, cancelled}
use global_egress.Pool.Budget.{
  update_slots, update_slot, open_count, reserve_capacity, reserve_tunnel_open,
}
use global_egress.Pool.Setup.Ascending.{HasOwnIds}
use global_egress.Pool.Relays.{slot_of}
use global_egress.Pool.Opening.{
  Admission, live, wait, admitted, start_opening, reserve_open, admit_open,
}
use global_egress.Pool.Opening.Flights.{
  IsApart, All-update_slots, HasOwnIds-update_slots, start-count,
}
use global_egress.Pool.Opening.Sound.{
  reserve_tunnel_open-Aside, Aside-AreSound, IsOpening-update, reserve_capacity-Makes,
  HasRoom-Aside, IsOpening, HasRoom, IsGrounded, Makes, AreSound,
}

-- The slot that is found under an ID is the only one that has it.
pub slot_of-All :
    (P : SlotState → Type 0) (id : Bytes) (ss : List SlotState) (s : SlotState)
    → HasOwnIds ss
    → slot_of id ss ≡ some s
    → P s
    → All (λ t. t.spec.id ≡ id → P t) ss
slot_of-All P id [] s own h p = tt
slot_of-All P id (t ∷ ts) s (o, own) h p = elim (Bool-cases (t.spec.id == id)) [
  | inl e ↦ (
    λ _. subst P (found (rw e at h)) p,
    others ts (subst (λ i. All (λ u. i ≢ u.spec.id) ts) ((bytes_beq_iff t.spec.id id).0 e) o),
  )
  | inr e ↦ (
    λ named. absurd (differs (sym ((bytes_beq_iff t.spec.id id).1 named) ∙ e)),
    slot_of-All P id ts s own (rw e at h) p,
  )
]
  where
    found : ◌≡◌ {A = Option SlotState} (some t) (some s) → s ≡ t
    found e = cc

    differs : true ≡ false → ⊥
    differs e = cc

    others :
        (us : List SlotState) → All (λ u. id ≢ u.spec.id) us → All (λ u. u.spec.id ≡ id → P u) us
    others [] k = tt
    others (u ∷ us) (d, k) = (λ named. absurd (d (sym named)), others us k)

abbrev pub Admits : List Bytes → Bytes → Pool × Result Error Admission → Type 0
Admits flights id (q, ok admitted) = AreSound (record { pool = q; flights = id ∷ flights })
Admits flights id (q, ok live) = AreSound (record { pool = q; flights = flights })
Admits flights id (q, ok wait) = AreSound (record { pool = q; flights = flights })
Admits flights id (q, err e) = AreSound (record { pool = q; flights = flights })

pub All-both :
    (P Q : SlotState → Type 0) (ss : List SlotState) → All P ss → All Q ss → All (λ s. P s × Q s) ss
All-both P Q [] h k = tt
All-both P Q (s ∷ ss) (p, h) (q, k) = ((p, q), All-both P Q ss h k)

pub All-second :
    (P Q : SlotState → Type 0) (ss : List SlotState) → All (λ s. P s × Q s) ss → All Q ss
All-second P Q [] h = tt
All-second P Q (s ∷ ss) (x, h) = (x.1, All-second P Q ss h)

pub start_opening-IsOpening :
    (id : Bytes) (ss : List SlotState) → IsOpening (update_slots id start_opening ss) id
unfolding update_slots
start_opening-IsOpening id [] = tt
start_opening-IsOpening id (s ∷ ss) = elim (Bool-cases (s.spec.id == id)) [
  | inl e ↦ rw e ((λ _. refl), start_opening-IsOpening id ss)
  | inr e ↦ rw e (
    (λ named. absurd (differs (sym ((bytes_beq_iff s.spec.id id).1 named) ∙ e))),
    start_opening-IsOpening id ss,
  )
]
  where
    differs : true ≡ false → ⊥
    differs e = cc

-- A slot without a tunnel takes off when there is room.
pub started :
    (id : Bytes) (p : Pool) (flights : List Bytes)
    → AreSound (record { pool = p; flights = flights })
    → HasRoom p
    → IsGrounded p.slots id
    → ¬ In id flights
    → AreSound (record { pool = update_slot id start_opening p; flights = id ∷ flights })
unfolding open_count
started id p flights sound room grounded new = record {
  own = HasOwnIds-update_slots id start_opening p.slots (λ s. refl) sound.own;
  apart =
      All-second (λ s. s.spec.id ≡ id → s.tunnel ≡ false) IsApart
        (update_slots id start_opening p.slots)
        (All-update_slots (λ s. (s.spec.id ≡ id → s.tunnel ≡ false) × IsApart s) id start_opening
          p.slots (λ s named (low, _). (low, ground (arith, low named)))
          (All-both (λ s. s.spec.id ≡ id → s.tunnel ≡ false) IsApart p.slots grounded sound.apart));
  within = ground (arith, room, start-count id p.slots sound.own);
  single = (new, sound.single);
  flown = λ other m. elim m [
    | inl same ↦
        subst (IsOpening (update_slots id start_opening p.slots)) (sym same)
          (start_opening-IsOpening id p.slots)
    | inr before ↦
        IsOpening-update id other start_opening p.slots (λ s. refl) (λ s _ _ k. refl)
          (sound.flown other before)
  ];
}

pub reserve_open-Admits :
    (id : Bytes) (now : ℕ) (p : Pool) (flights : List Bytes)
    → AreSound (record { pool = p; flights = flights })
    → IsGrounded p.slots id
    → ¬ In id flights
    → Admits flights id (reserve_open id now p)
unfolding reserve_open
reserve_open-Admits id now p flights sound grounded new =
    capacity_of (reserve_capacity p) (reserve_capacity-Makes p flights sound)
  where
    reserved : Pool × Result Error (Unit {0}) → Pool × Result Error Admission
    reserved (r, err e) = (r, err e)
    reserved (r, ok u) = (update_slot id start_opening r, ok admitted)

    budget_of :
        (r : Pool) (outcome : Result Error (Unit {0}))
        → AreSound (record { pool = r; flights = flights })
        → HasRoom r
        → IsGrounded r.slots id
        → Admits flights id (reserved (r, outcome))
    budget_of r (err e) fine room low = fine
    budget_of r (ok u) fine room low = started id r flights fine room low new

    made : Pool × Result Error (Unit {0}) → Pool × Result Error Admission
    made (q, err e) = (q, err e)
    made (q, ok u) = reserved (reserve_tunnel_open now q)

    capacity_of :
        (out : Pool × Result Error (Unit {0})) → Makes flights p out → Admits flights id (made out)
    capacity_of (q, err e) fine = fine
    capacity_of (q, ok u) (fine, room, keeps) =
        let a = reserve_tunnel_open-Aside now q in
        budget_of (reserve_tunnel_open now q).0 (reserve_tunnel_open now q).1
          (Aside-AreSound q (reserve_tunnel_open now q).0 flights a fine)
          (HasRoom-Aside q (reserve_tunnel_open now q).0 a room)
          (subst (λ ss. IsGrounded ss id) (sym a.slots) (keeps id grounded))

abbrev pub found_slot : Bytes → Bool → ℕ → Pool → Option SlotState → Pool × Result Error Admission
found_slot id gone now p none = (p, err unknown_slot)
found_slot id gone now p (some s) =
    if s.tunnel
    then (p, ok live)
    else if s.opening
    then (p, ok wait)
    else if gone
    then (p, err cancelled)
    else reserve_open id now p

pub admit_open-Admits :
    (id : Bytes) (gone : Bool) (now : ℕ) (p : Pool) (flights : List Bytes)
    → AreSound (record { pool = p; flights = flights })
    → Admits flights id (admit_open id gone now p)
unfolding admit_open
admit_open-Admits id gone now p flights sound = found (slot_of id p.slots) refl
  where
    waiting_or :
        (s : SlotState) (opening gone : Bool)
        → slot_of id p.slots ≡ some s
        → s.tunnel ≡ false
        → s.opening ≡ opening
        → Admits flights id (
            if opening
            then (p, ok wait)
            else if gone
            then (p, err cancelled)
            else reserve_open id now p)
    waiting_or s true gone e low o = sound
    waiting_or s false true e low o = sound
    waiting_or s false false e low o =
        reserve_open-Admits id now p flights sound
          (slot_of-All (λ t. t.tunnel ≡ false) id p.slots s sound.own e low)
          (λ m.
            let (there, named) = In-find (λ t. t.spec.id == id) p.slots e in
            absurd (
              clash (
                sym (
                  All-In (λ t. t.spec.id ≡ id → t.opening ≡ true) p.slots (sound.flown id m) there
                    ((bytes_beq_iff s.spec.id id).0 named))
                ∙ o)))
      where
        clash : true ≡ false → ⊥
        clash q = cc

    open_or :
        (s : SlotState) (tunnel : Bool)
        → slot_of id p.slots ≡ some s
        → s.tunnel ≡ tunnel
        → Admits flights id (
            if tunnel
            then (p, ok live)
            else if s.opening
            then (p, ok wait)
            else if gone
            then (p, err cancelled)
            else reserve_open id now p)
    open_or s true e low = sound
    open_or s false e low = waiting_or s s.opening gone e low refl

    found :
        (o : Option SlotState)
        → slot_of id p.slots ≡ o
        → Admits flights id (found_slot id gone now p o)
    found none e = sound
    found (some s) e = open_or s s.tunnel e refl
