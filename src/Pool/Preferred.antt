-- ===== src/Pool/Preferred.antt =====
-- The ring of last-good slots for one destination, preferredSet in internal/pool/pool.go.
pub mod Ring
use global_egress.Shared.{
  ℕ, ◌-◌, ◌==◌, Bool, not, List, [], ◌∷◌, ◌++◌, Option, none, some, Bytes, bytes_eq, Addr, addr_eq,
  nat_eq, if◌then◌else◌, ltb, length, drop, filter,
}
use global_egress.Pool.State.{PreferredExit}
use mathlib.Core.Option

-- The loop of `remember`: the first entry of the address gets the slot and the new term.
unfoldable pub renew_first : Bytes → Addr → ℕ → List PreferredExit → Option (List PreferredExit)
renew_first slot_id ip until [] = none
renew_first slot_id ip until (x ∷ xs) =
    let rest = renew_first slot_id ip until xs in
    if x.public_ip == ip
    then some (record x { slot_id = slot_id; expires_at = until } ∷ xs)
    else elim rest [ none ↦ none | some ys ↦ some (x ∷ ys) ]

-- Keeps the last `max` entries.
unfoldable pub keep_last : ℕ → List PreferredExit → List PreferredExit
keep_last max xs = if ltb max (length xs) then drop (length xs - max) xs else xs

unfoldable pub remember : Bytes → Addr → ℕ → ℕ → List PreferredExit → List PreferredExit
unfolding renew_first keep_last
remember slot_id ip until max xs = elim (renew_first slot_id ip until xs) [
  | some ys ↦ ys
  | none ↦
      keep_last (if max == 0 then 8 else max)
        (xs ++ record { slot_id = slot_id; public_ip = ip; expires_at = until } ∷ [])
]

unfoldable pub remove_ip : Addr → List PreferredExit → List PreferredExit
remove_ip ip = filter (λ pref. not (pref.public_ip == ip))

-- The first entry of the slot goes to the end, unless it is the last one.
unfoldable pub rotate_to_tail : Bytes → List PreferredExit → List PreferredExit
rotate_to_tail slot_id [] = []
rotate_to_tail slot_id (x ∷ []) = x ∷ []
rotate_to_tail slot_id (x ∷ y ∷ ys) =
    if x.slot_id == slot_id then (y ∷ ys) ++ x ∷ [] else x ∷ rotate_to_tail slot_id (y ∷ ys)

unfoldable pub prune : ℕ → List PreferredExit → List PreferredExit
prune now = filter (λ pref. ltb now pref.expires_at)
