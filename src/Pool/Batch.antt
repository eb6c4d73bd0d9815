-- ===== src/Pool/Batch.antt =====
-- The unique-IP batch of internal/pool/pool.go: what it burned, and for which slot.
pub mod Burns
use global_egress.Shared.{
  ℕ, ◌+◌, ◌≤◌, ◌<◌, ◌%◌, ◌^◌, ◌≡◌, refl, Bool, true, false, ◌||◌, ◌&&◌, not, List, [], ◌∷◌, Option,
  none, some, Bytes, bytes_eq, Addr, addr_eq, is_valid, Map, Eq, ◌==◌, if◌then◌else◌, lookup,
  insert, delete, any, u64, arith, is_some, or_default,
}
use global_egress.Pool.State.{Batch}

module _ {A : Type 0} ⦃e : Eq A⦄ where
  unfoldable pub contains : A → List A → Bool
  contains a [] = false
  contains a (x ∷ xs) = x == a || contains a xs

  -- A set's insertion.
  unfoldable pub add_to : A → List A → List A
  unfolding contains
  add_to a xs = if contains a xs then xs else a ∷ xs

  unfoldable pub drop_from : A → List A → List A
  drop_from a [] = []
  drop_from a (x ∷ xs) = if x == a then drop_from a xs else x ∷ drop_from a xs

unfoldable pub new_batch : ℕ → ℕ → Batch
new_batch ident expires_at = record {
  ident = ident;
  used_ips = [];
  burn_seq = [];
  next_burn = 0;
  used_slots = [];
  slot_ips = [];
  expires_at = expires_at;
}

-- Records a burn, and moves the address to the back of the ring.
unfoldable pub stamp : Addr → ℕ → Batch → Batch
stamp ip at b =
    let next = u64 (b.next_burn + 1) in
    record b {
      used_ips = insert ip at b.used_ips;
      next_burn = next;
      burn_seq = insert ip next b.burn_seq;
    }

unfoldable pub add_ip : Bytes → Addr → ℕ → Batch → Batch
unfolding stamp contains
add_ip slot_id ip at b =
    let ips = or_default (lookup slot_id b.slot_ips) [] in
    let added = record b { slot_ips = insert slot_id (ip ∷ ips) b.slot_ips } in
    let present = record b { slot_ips = insert slot_id ips b.slot_ips } in
    if not (is_valid ip) then b else if contains ip ips then present else stamp ip at added

unfoldable pub reserve : Bytes → Addr → ℕ → Batch → Batch
unfolding add_to add_ip
reserve slot_id ip at b =
    add_ip slot_id ip at (record b { used_slots = add_to slot_id b.used_slots })

-- Whether some slot still answers for the address.
unfoldable pub still_used : Addr → Map Bytes (List Addr) → Bool
unfolding contains
still_used ip [] = false
still_used ip ((slot, ips) ∷ m) = contains ip ips || still_used ip m

-- The loop of `release`, over the addresses of the slot that is released.
unfoldable pub release_ips : List Addr → Map Bytes (List Addr) → Map Addr ℕ → Map Addr ℕ
release_ips [] others used = used
release_ips (ip ∷ ips) others used =
    release_ips ips others (if still_used ip others then used else delete ip used)

unfoldable pub release : Bytes → Batch → Batch
unfolding release_ips still_used drop_from
release slot_id b =
    let ips = or_default (lookup slot_id b.slot_ips) [] in
    let others = delete slot_id b.slot_ips in
    record b {
      slot_ips = others;
      used_slots = drop_from slot_id b.used_slots;
      used_ips = release_ips ips others b.used_ips;
    }
