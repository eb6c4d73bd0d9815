-- ===== src/Pool/Batch/Burns.antt =====
-- What a unique batch holds against addresses: a burn lasts while a slot of the batch answers for it.
use global_egress.Shared.{
  ℕ, ◌+◌, ◌≡◌, ◌⊎◌, Bool, false, some, u64, refl, List, [], ◌∷◌, Bytes, bytes_eq, bytes_beq_iff,
  Addr, addr_eq, addr_beq_iff, is_valid, if◌then◌else◌, ◌==◌, nat_eq, arith, Bool-cases, inl, inr,
  none, not, ◌&&◌, ◌||◌, true, Map, lookup, insert, delete, is_some, or_default, lookup-insert,
  lookup-delete,
}
use global_egress.Pool.State.{Batch}
use global_egress.Pool.Batch.{
  contains, add_to, drop_from, stamp, add_ip, reserve, still_used, release_ips, release,
}

-- Every address that a slot of the batch answers for is burned.
abbrev pub IsAttributed : Batch → Type 0
IsAttributed b =
    (ip : Addr) → still_used ip b.slot_ips ≡ true → is_some (lookup ip b.used_ips) ≡ true

still_used-insert :
    (ip : Addr) (k : Bytes) (ips : List Addr) (m : Map Bytes (List Addr))
    → still_used ip (insert k ips m) ≡ true
    → (contains ip ips ≡ true) ⊎ (still_used ip m ≡ true)
unfolding still_used insert
still_used-insert ip k ips [] h = ground arith
still_used-insert ip k ips ((j, js) ∷ m) h = ground (arith, still_used-insert ip k ips m)

still_used-lookup :
    (ip : Addr) (k : Bytes) (m : Map Bytes (List Addr))
    → contains ip (or_default (lookup k m) []) ≡ true
    → still_used ip m ≡ true
unfolding still_used lookup contains
still_used-lookup ip k [] h = cc
still_used-lookup ip k ((j, js) ∷ m) h = ground (arith, still_used-lookup ip k m)

still_used-delete :
    (ip : Addr) (k : Bytes) (m : Map Bytes (List Addr))
    → still_used ip (delete k m) ≡ true
    → still_used ip m ≡ true
unfolding still_used delete
still_used-delete ip k [] h = h
still_used-delete ip k ((j, js) ∷ m) h = elim (Bool-cases (j == k)) [
  | inl e ↦ ground (arith, still_used-delete ip k m)
  | inr e ↦ ground (arith, still_used-delete ip k m)
]

used-stamp :
    (ip other : Addr) (at : ℕ) (b : Batch)
    → is_some (lookup other (stamp ip at b).used_ips)
      ≡ (if ip == other then true else is_some (lookup other b.used_ips))
unfolding stamp
used-stamp ip other at b = ground (arith, lookup-insert ip other at b.used_ips)

-- Recycling stamps an address again, and no burn is lost.
pub stamp-IsAttributed :
    (ip : Addr) (at : ℕ) (b : Batch) → IsAttributed b → IsAttributed (stamp ip at b)
unfolding stamp
stamp-IsAttributed ip at b inv other h =
    ground (arith, inv other, lookup-insert ip other at b.used_ips)

contains_cons :
    (ip other : Addr) (ips : List Addr)
    → contains other (ip ∷ ips) ≡ (ip == other || contains other ips)
unfolding contains
contains_cons ip other ips = refl

abbrev pub held_by : Bytes → Batch → List Addr
held_by slot_id b = or_default (lookup slot_id b.slot_ips) []

add_ip-used :
    (slot_id : Bytes) (ip : Addr) (at : ℕ) (b : Batch)
    → IsAttributed b
    → (other : Addr)
    → is_some (lookup other (add_ip slot_id ip at b).used_ips)
      ≡ (is_some (lookup other b.used_ips) || (is_valid ip && ip == other))
unfolding add_ip stamp
add_ip-used slot_id ip at b inv other = ground (
  arith,
  addr_beq_iff ip other,
  lookup-insert ip other at b.used_ips,
  inv ip,
  still_used-lookup ip slot_id b.slot_ips,
)

add_ip-IsAttributed :
    (slot_id : Bytes) (ip : Addr) (at : ℕ) (b : Batch)
    → IsAttributed b
    → IsAttributed (add_ip slot_id ip at b)
unfolding add_ip stamp
add_ip-IsAttributed slot_id ip at b inv other h = ground (
  arith,
  addr_beq_iff ip other,
  lookup-insert ip other at b.used_ips,
  inv ip,
  inv other,
  still_used-lookup ip slot_id b.slot_ips,
  still_used-lookup other slot_id b.slot_ips,
  still_used-insert other slot_id (held_by slot_id b) b.slot_ips,
  still_used-insert other slot_id (ip ∷ held_by slot_id b) b.slot_ips,
  contains_cons ip other (held_by slot_id b),
)

used_slots-add_ip :
    (slot_id : Bytes) (ip : Addr) (at : ℕ) (b : Batch)
    → (add_ip slot_id ip at b).used_slots ≡ b.used_slots
unfolding add_ip stamp
used_slots-add_ip slot_id ip at b = ground arith

contains-add_to :
    (a other : Bytes) (xs : List Bytes)
    → contains other (add_to a xs) ≡ (a == other || contains other xs)
unfolding add_to contains
contains-add_to a other xs = ground (arith, bytes_beq_iff a other)

-- A measured address that the slot does not answer for yet.
abbrev pub is_fresh : Bytes → Addr → Batch → Bool
is_fresh slot_id ip b = is_valid ip && not (contains ip (held_by slot_id b))

add_ip-lookup :
    (slot_id : Bytes) (ip : Addr) (at : ℕ) (b : Batch) (other : Addr)
    → lookup other (add_ip slot_id ip at b).used_ips
      ≡ (if is_fresh slot_id ip b && ip == other then some at else lookup other b.used_ips)
unfolding add_ip stamp
add_ip-lookup slot_id ip at b other = ground (arith, lookup-insert ip other at b.used_ips)

add_ip-burn_seq :
    (slot_id : Bytes) (ip : Addr) (at : ℕ) (b : Batch) (other : Addr)
    → lookup other (add_ip slot_id ip at b).burn_seq ≡ (
        if is_fresh slot_id ip b && ip == other
        then some (u64 (b.next_burn + 1))
        else lookup other b.burn_seq)
unfolding add_ip stamp
add_ip-burn_seq slot_id ip at b other =
    ground (arith, lookup-insert ip other (u64 (b.next_burn + 1)) b.burn_seq)

add_ip-held_by :
    (slot_id : Bytes) (ip : Addr) (at : ℕ) (b : Batch) (k : Bytes) (other : Addr)
    → contains other (held_by k (add_ip slot_id ip at b))
      ≡ (contains other (held_by k b) || (slot_id == k && is_valid ip && ip == other))
unfolding add_ip stamp
add_ip-held_by slot_id ip at b k other = ground (
  arith,
  bytes_beq_iff slot_id k,
  addr_beq_iff ip other,
  lookup-insert slot_id k (held_by slot_id b) b.slot_ips,
  lookup-insert slot_id k (ip ∷ held_by slot_id b) b.slot_ips,
  contains_cons ip other (held_by slot_id b),
)

-- What a batch is after a reservation of the slot, at the address measured for it.
pub record Burned (slot_id : Bytes) (ip : Addr) (at : ℕ) (b c : Batch) : Type 0 where
  pub attributed : IsAttributed c
  pub used_slots :
      (other : Bytes)
      → contains other c.used_slots ≡ (slot_id == other || contains other b.used_slots)
  pub burned :
      (other : Addr)
      → is_some (lookup other c.used_ips)
        ≡ (is_some (lookup other b.used_ips) || (is_valid ip && ip == other))
  pub used_ips :
      (other : Addr)
      → lookup other c.used_ips
        ≡ (if is_fresh slot_id ip b && ip == other then some at else lookup other b.used_ips)
  pub burn_seq :
      (other : Addr)
      → lookup other c.burn_seq ≡ (
          if is_fresh slot_id ip b && ip == other
          then some (u64 (b.next_burn + 1))
          else lookup other b.burn_seq)
  pub next_burn :
      c.next_burn ≡ (if is_fresh slot_id ip b then u64 (b.next_burn + 1) else b.next_burn)
  pub slot_ips :
      (k : Bytes) (other : Addr)
      → contains other (held_by k c)
        ≡ (contains other (held_by k b) || (slot_id == k && is_valid ip && ip == other))
  pub expires_at : c.expires_at ≡ b.expires_at
  pub ident : c.ident ≡ b.ident

-- Reserving a slot in a batch marks the slot as used, and no other slot. If the slot's address is
-- measured, then the batch holds the slot answerable for it and the address is burned; a burn that is
-- new to the slot has the time of the reservation and the next number in the order of burns, and any
-- other address keeps its time and number. No other slot becomes answerable for anything, and the time at
-- which the batch expires and its identity stay.
pub reserve-burns :
    (slot_id : Bytes) (ip : Addr) (at : ℕ) (b : Batch)
    → IsAttributed b
    → Burned slot_id ip at b (reserve slot_id ip at b)
unfolding reserve
reserve-burns slot_id ip at b inv = record {
  attributed = add_ip-IsAttributed slot_id ip at marked inv;
  used_slots = λ other.
      rw (used_slots-add_ip slot_id ip at marked) (contains-add_to slot_id other b.used_slots);
  burned = add_ip-used slot_id ip at marked inv;
  used_ips = add_ip-lookup slot_id ip at marked;
  burn_seq = add_ip-burn_seq slot_id ip at marked;
  next_burn = unfold add_ip stamp in ground arith;
  slot_ips = add_ip-held_by slot_id ip at marked;
  expires_at = unfold add_ip stamp in ground arith;
  ident = unfold add_ip stamp in ground arith;
}
  where
    marked : Batch
    marked = record b { used_slots = add_to slot_id b.used_slots }

release_ips-lookup :
    (ips : List Addr) (others : Map Bytes (List Addr)) (used : Map Addr ℕ) (ip : Addr)
    → lookup ip (release_ips ips others used)
      ≡ (if contains ip ips && not (still_used ip others) then none else lookup ip used)
unfolding release_ips contains
release_ips-lookup [] others used ip = refl
release_ips-lookup (x ∷ xs) others used ip = ground (
  arith,
  addr_beq_iff x ip,
  lookup-delete x ip used,
  release_ips-lookup xs others (if still_used x others then used else delete x used) ip,
)

contains-drop_from :
    (a other : Bytes) (xs : List Bytes)
    → contains other (drop_from a xs) ≡ (not (a == other) && contains other xs)
unfolding drop_from contains
contains-drop_from a other [] = ground arith
contains-drop_from a other (x ∷ xs) = ground (
  arith,
  bytes_beq_iff x a,
  bytes_beq_iff x other,
  bytes_beq_iff a other,
  contains-drop_from a other xs,
)

-- Whether a slot other than this one answers for the address.
abbrev pub held_elsewhere : Bytes → Addr → Map Bytes (List Addr) → Bool
held_elsewhere slot_id ip [] = false
held_elsewhere slot_id ip ((k, ips) ∷ m) =
    (not (k == slot_id) && contains ip ips) || held_elsewhere slot_id ip m

still_used_elsewhere :
    (slot_id : Bytes) (ip : Addr) (m : Map Bytes (List Addr))
    → still_used ip (delete slot_id m) ≡ held_elsewhere slot_id ip m
unfolding still_used delete
still_used_elsewhere slot_id ip [] = refl
still_used_elsewhere slot_id ip ((k, ips) ∷ m) = ground (arith, still_used_elsewhere slot_id ip m)

-- What a batch is after the release of the slot.
pub record Freed (slot_id : Bytes) (b c : Batch) : Type 0 where
  pub attributed : IsAttributed c
  pub used_slots :
      (other : Bytes)
      → contains other c.used_slots ≡ (not (slot_id == other) && contains other b.used_slots)
  pub slot_ips :
      (k : Bytes) → lookup k c.slot_ips ≡ (if slot_id == k then none else lookup k b.slot_ips)
  pub used_ips :
      (ip : Addr)
      → lookup ip c.used_ips ≡ (
          if contains ip (held_by slot_id b) && not (held_elsewhere slot_id ip b.slot_ips)
          then none
          else lookup ip b.used_ips)
  pub apart :
      record c { used_slots = b.used_slots; slot_ips = b.slot_ips; used_ips = b.used_ips } ≡ b

-- Releasing a slot frees the slot, which answers for no address any more, and of the addresses that it
-- answered for it frees those for which no other slot of the batch answered. Every other slot stays
-- used and answerable for its addresses, every other address stays burned at its time, and nothing
-- else of the batch changes.
pub release-frees :
    (slot_id : Bytes) (b : Batch) → IsAttributed b → Freed slot_id b (release slot_id b)
unfolding release
release-frees slot_id b inv = record {
  attributed = λ ip h. ground (
    arith,
    inv ip,
    still_used-delete ip slot_id b.slot_ips,
    release_ips-lookup (held_by slot_id b) (delete slot_id b.slot_ips) b.used_ips ip,
  );
  used_slots = λ other. contains-drop_from slot_id other b.used_slots;
  slot_ips = λ k. lookup-delete slot_id k b.slot_ips;
  used_ips = λ ip.
      rw (← still_used_elsewhere slot_id ip b.slot_ips)
        (release_ips-lookup (held_by slot_id b) (delete slot_id b.slot_ips) b.used_ips ip);
  apart = refl;
}
