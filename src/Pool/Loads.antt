-- ===== src/Pool/Loads.antt =====
-- The connections that each slot carries, seen apart from the rest of its state, and what changes
-- them.
pub mod Frames
use global_egress.Shared.{
  ℕ, ◌+◌, ◌-◌, ◌≡◌, refl, sym, ap, ◌∙◌, List, [], ◌∷◌, map, Bytes, bytes_eq, if◌then◌else◌, ◌==◌,
  arith, Bool-cases, inl, inr,
}
use global_egress.Pool.State.{SlotState, Pool, Options, Error}
use global_egress.Pool.Budget.{update_slots, close_slot}
use global_egress.Pool.Cooldowns.{expire_cooldowns}

pub record Load : Type 0 where
  pub id : Bytes
  pub leases : ℕ
  pub pending : ℕ

abbrev pub load_of : SlotState → Load
load_of s = record { id = s.spec.id; leases = s.leases; pending = s.pending_leases }

abbrev pub loads : List SlotState → List Load
loads = map load_of

unfoldable pub at_id : Bytes → (Load → Load) → Load → Load
at_id id f l = if l.id == id then f l else l

-- A change of a slot's state that is this change of its load.
pub loads-update :
    (id : Bytes) (f : SlotState → SlotState) (g : Load → Load) (ss : List SlotState)
    → ((s : SlotState) → load_of (f s) ≡ g (load_of s))
    → loads (update_slots id f ss) ≡ map (at_id id g) (loads ss)
unfolding update_slots at_id
loads-update id f g [] h = refl
loads-update id f g (s ∷ ss) h = elim (Bool-cases (s.spec.id == id)) [
  | inl e ↦ rw (e, h s, loads-update id f g ss h) refl
  | inr e ↦ rw (e, loads-update id f g ss h) refl
]

map_same : (h : Load → Load) (ls : List Load) → ((l : Load) → h l ≡ l) → map h ls ≡ ls
map_same h [] same = refl
map_same h (l ∷ ls) same = rw (same l, map_same h ls same) refl

at_id_same : (id : Bytes) (l : Load) → at_id id (λ l. l) l ≡ l
unfolding at_id
at_id_same id l = ground arith

pub loads-update_same :
    (id : Bytes) (f : SlotState → SlotState) (ss : List SlotState)
    → ((s : SlotState) → load_of (f s) ≡ load_of s)
    → loads (update_slots id f ss) ≡ loads ss
loads-update_same id f ss h =
    loads-update id f (λ l. l) ss h ∙ map_same (at_id id (λ l. l)) (loads ss) (at_id_same id)

pub loads-map_same :
    (f : SlotState → SlotState) (ss : List SlotState)
    → ((s : SlotState) → load_of (f s) ≡ load_of s)
    → loads (map f ss) ≡ loads ss
loads-map_same f [] h = refl
loads-map_same f (s ∷ ss) h = rw (h s, loads-map_same f ss h) refl

pub load_of-close_slot : (s : SlotState) → load_of (close_slot s) ≡ load_of s
unfolding close_slot
load_of-close_slot s = ground arith

-- What an operation that gives and takes no connection leaves alone.
pub record Frame (p q : Pool) : Type 0 where
  pub opts : q.opts ≡ p.opts
  pub leased : q.leased ≡ p.leased
  pub pending : q.pending_leases ≡ p.pending_leases
  pub loads : loads q.slots ≡ loads p.slots

pub Frame-trans : {p q r : Pool} → Frame p q → Frame q r → Frame p r
Frame-trans f g = record {
  opts = g.opts ∙ f.opts;
  leased = g.leased ∙ f.leased;
  pending = g.pending ∙ f.pending;
  loads = g.loads ∙ f.loads;
}

pub Frame-refl : (p : Pool) → Frame p p
Frame-refl p = record { opts = refl; leased = refl; pending = refl; loads = refl }
