-- ===== src/Pool/Pick.antt =====
-- pick of internal/pool/pool.go: the choice of the next slot to try, in the order of its stages.
pub mod Outcome
pub mod Choice
pub mod Burned
pub mod Oldest
pub mod Sticky
pub mod Stages
pub mod Whole
use global_egress.Shared.{
  ℕ, suc, ◌+◌, ◌-◌, ◌%◌, ◌^◌, ◌||◌, ◌&&◌, Bool, true, false, not, List, [], ◌∷◌, ◌++◌, Option, none,
  some, Bytes, bytes_eq, nat_eq, if◌then◌else◌, ltb, leb, length, ◌==◌, Result, ok, err, Map,
  lookup, insert, delete, is_empty, is_some, or_default, filter, find, get_elem?, is_valid, Addr,
  addr_eq, u64,
}
use global_egress.Policy.{Policy}
use global_egress.Pool.State.{
  SlotState, Pool, Batch, Reservation, Session, PreferredExit, IpCooldowns, Error, no_candidate,
  policy_limit, busy, tunnel_budget,
}
use global_egress.Pool.Batch.{stamp}
use global_egress.Pool.Preferred.{rotate_to_tail, prune}
use global_egress.Pool.Cooldowns.{expire}
use global_egress.Pool.Eligible.{eligible, without_batch, ready}
use global_egress.Pool.Budget.{tunnel_budget_available, reserve_capacity}
use global_egress.Pool.Reserve.{session_ttl, reserve_acquisition}

pub record Picked : Type 0 where
  pub slot : SlotState
  pub sticky : Bool
  pub reservation : Reservation

abbrev pub find_slot : Bytes → List SlotState → Option SlotState
find_slot id = find (λ s. s.spec.id == id)

-- The end of every branch that selects: the slot is reserved.
unfoldable pub take : Policy → SlotState → Bool → ℕ → Pool → Pool × Result Error Picked
unfolding reserve_acquisition
take pol s sticky now p =
    let (q, reserved) = reserve_acquisition pol s now p in
    elim reserved [
      | err e ↦ (q, err e)
      | ok r ↦ (q, ok (record { slot = s; sticky = sticky; reservation = r }))
    ]

-- pickReady: `draw` is the random number of `IntN`.
unfoldable pub pick_ready : SlotState → List SlotState → ℕ → SlotState
pick_ready s rest draw = or_default (get_elem? (s ∷ rest) (draw % suc (length rest))) s

-- The loop over the slots, with the address cooldowns that it leaves.
unfoldable pub candidates :
    Pool → Policy → Bytes → ℕ → IpCooldowns → List SlotState → List SlotState × IpCooldowns
candidates p pol target now m [] = ([], m)
candidates p pol target now m (s ∷ ss) =
    let (passes, m') = eligible p m s pol target now in
    let (rest, m'') = candidates p pol target now m' ss in (if passes then s ∷ rest else rest, m'')

abbrev Oldest : Type 0
Oldest = Option (SlotState × ℕ)

-- One round of the recycling loop: the burned slot with the smallest sequence number is kept.
unfoldable pub older_burn : Batch → SlotState → Oldest → Oldest
older_burn b s best =
    let seq = or_default (lookup s.public_ip b.burn_seq) 0 in
    if not (is_some (lookup s.public_ip b.used_ips)) then best else elim best [
      | none ↦ some (s, seq)
      | some (t, least) ↦ if ltb seq least then some (s, seq) else some (t, least)
    ]

unfoldable pub oldest_burn :
    Pool → Batch → Policy → Bytes → ℕ → IpCooldowns → List SlotState → Oldest → Oldest × IpCooldowns
unfolding older_burn
oldest_burn p b pol target now m [] best = (best, m)
oldest_burn p b pol target now m (s ∷ ss) best =
    let (passes, m') = eligible p m s (without_batch pol) target now in
    oldest_burn p b pol target now m' ss (if passes then older_burn b s best else best)

-- The chosen slot's address goes to the back of the ring.
unfoldable pub recycle_in : Batch → Policy → Bytes → ℕ → Pool → Pool × Option SlotState
unfolding oldest_burn stamp
recycle_in b pol target now p =
    let (best, m) = oldest_burn p b pol target now p.ip_cooldowns p.slots none in
    let q = record p { ip_cooldowns = m } in
    elim best [
      | none ↦ (q, none)
      | some (s, seq) ↦ (
        record q { batches = insert pol.unique_batch (stamp s.public_ip now b) q.batches },
        some s,
      )
    ]

-- recycleOldestBatchExitLocked
unfoldable pub recycle : Policy → Bytes → ℕ → Pool → Pool × Option SlotState
unfolding recycle_in
recycle pol target now p =
    if not pol.recycle_batch || is_empty pol.unique_batch
    then (p, none)
    else elim (lookup pol.unique_batch p.batches) [
      | none ↦ (p, none)
      | some b ↦ if ltb now b.expires_at then recycle_in b pol target now p else (p, none)
    ]

unfoldable pub pick_recycled : Policy → Bytes → ℕ → Pool → Pool × Result Error Picked
unfolding recycle take
pick_recycled pol target now p =
    let (q, found) = recycle pol target now p in
    elim found [ none ↦ (q, err no_candidate) | some s ↦ take pol s false now q ]

-- No candidate is ready: a tunnel has to be opened, within both budgets.
unfoldable pub pick_opening :
    Policy → SlotState → List SlotState → ℕ → ℕ → Pool → Pool × Result Error Picked
unfolding pick_ready take tunnel_budget_available reserve_capacity
pick_opening pol s rest now draw p =
    let (q, available) = tunnel_budget_available now p in
    let (q', room) = reserve_capacity q in
    if not available
    then (q, err tunnel_budget)
    else elim room [ err e ↦ (q', err e) | ok _ ↦ take pol (pick_ready s rest draw) false now q' ]

unfoldable pub pick_among :
    Policy → Bytes → ℕ → ℕ → List SlotState → Pool → Pool × Result Error Picked
unfolding pick_recycled pick_opening pick_ready take
pick_among pol target now draw [] p = pick_recycled pol target now p
pick_among pol target now draw (s ∷ ss) p = elim (filter ready (s ∷ ss)) [
  | [] ↦ pick_opening pol s ss now draw p
  | r ∷ rs ↦ take pol (pick_ready r rs draw) false now p
]

unfoldable pub pick_any : Policy → Bytes → ℕ → ℕ → Pool → Pool × Result Error Picked
unfolding candidates pick_among
pick_any pol target now draw p =
    let (found, m) = candidates p pol target now p.ip_cooldowns p.slots in
    pick_among pol target now draw found (record p { ip_cooldowns = m })

-- What the loop over the preferred slots gathers.
pub record Preference : Type 0 where
  pub best : Option SlotState
  pub kept : List PreferredExit
  pub cool : IpCooldowns

unfoldable pub load : SlotState → ℕ
load s = s.leases + s.pending_leases

-- The least loaded slot; an earlier one wins a tie.
unfoldable pub lighter : SlotState → Option SlotState → Option SlotState
unfolding load
lighter s none = some s
lighter s (some t) = if ltb (load s) (load t) then some s else some t

-- One round: a slot that the batch alone excludes stays in the ring, and is not chosen.
unfoldable pub weigh :
    Pool → Policy → Bytes → ℕ → PreferredExit → SlotState → Preference → Preference
unfolding lighter
weigh p pol target now pref s acc =
    let (stays, m) = eligible p acc.cool s (without_batch pol) target now in
    let (passes, m') = eligible p m s pol target now in
    let keeping = acc.kept ++ pref ∷ [] in
    if not (is_valid pref.public_ip) || not (s.public_ip == pref.public_ip)
    then acc
    else if not stays
    then record acc { cool = m }
    else if not passes
    then record acc { kept = keeping; cool = m' }
    else record acc { best = lighter s acc.best; kept = keeping; cool = m' }

unfoldable pub weigh_all : Pool → Policy → Bytes → ℕ → List PreferredExit → Preference → Preference
unfolding weigh
weigh_all p pol target now [] acc = acc
weigh_all p pol target now (pref ∷ prefs) acc =
    weigh_all p pol target now prefs (elim (find_slot pref.slot_id p.slots) [
      | none ↦ acc
      | some s ↦ weigh p pol target now pref s acc
    ])

abbrev pub nothing_picked : Pool → Pool × Result Error (Option Picked)
nothing_picked p = (p, ok none)

unfoldable pub take_best : Policy → SlotState → ℕ → Pool → Pool × Result Error (Option Picked)
unfolding take
take_best pol s now p =
    let (q, taken) = take pol s false now p in
    elim taken [ err e ↦ (q, err e) | ok x ↦ (q, ok (some x)) ]

-- The ring with the entries that stayed, and the cooldowns that the loop left.
abbrev pub set_ring : Bytes → List PreferredExit → IpCooldowns → Pool → Pool
set_ring target ring m p = record p { ip_cooldowns = m; preferred = insert target ring p.preferred }

unfoldable pub take_preferred :
    Policy → Bytes → ℕ → Preference → Pool → Pool × Result Error (Option Picked)
unfolding take_best rotate_to_tail
take_preferred pol target now found p =
    if is_empty found.kept
    then nothing_picked
        (record p { ip_cooldowns = found.cool; preferred = delete target p.preferred })
    else elim found.best [
      | none ↦ nothing_picked (set_ring target found.kept found.cool p)
      | some s ↦
          take_best pol s now (set_ring target (rotate_to_tail s.spec.id found.kept) found.cool p)
    ]

-- pickPreferredLocked
unfoldable pub pick_preferred : Policy → Bytes → ℕ → Pool → Pool × Result Error (Option Picked)
unfolding weigh_all take_preferred prune
pick_preferred pol target now p = elim (lookup target p.preferred) [
  | none ↦ nothing_picked p
  | some set ↦
      take_preferred pol target now
        (weigh_all p pol target now (prune now set)
          (record { best = none; kept = []; cool = p.ip_cooldowns }))
        p
]

unfoldable pub pick_fresh : Policy → Bytes → ℕ → ℕ → Pool → Pool × Result Error Picked
unfolding pick_preferred pick_any
pick_fresh pol target now draw p =
    let (q, found) = pick_preferred pol target now p in
    if is_empty target then pick_any pol target now draw p else elim found [
      | err e ↦ (q, err e)
      | ok none ↦ pick_any pol target now draw q
      | ok (some x) ↦ (q, ok x)
    ]

-- The pinned slot became unusable: the session is forgotten, and another slot is chosen.
unfoldable pub pick_again : Policy → Bytes → ℕ → ℕ → Pool → Pool × Result Error Picked
unfolding pick_fresh
pick_again pol target now draw p =
    pick_fresh pol target now draw (record p { sessions = delete pol.session p.sessions })

-- A live sticky session wins, as long as its slot is still usable.
unfoldable pub pick_pinned : Policy → Bytes → ℕ → ℕ → Session → Pool → Pool × Result Error Picked
unfolding pick_again take session_ttl
pick_pinned pol target now draw sess p =
    let extended = record sess { expires_at = now + session_ttl p pol } in
    elim (find_slot sess.slot_id p.slots) [
      | none ↦ pick_again pol target now draw p
      | some s ↦
          let (passes, m) = eligible p p.ip_cooldowns s pol target now in
          let q = record p { ip_cooldowns = m } in
          if passes
          then take pol s true now (record q { sessions = insert pol.session extended q.sessions })
          else pick_again pol target now draw q
    ]

unfoldable pub pick_session : Policy → Bytes → ℕ → ℕ → Pool → Pool × Result Error Picked
unfolding pick_pinned pick_fresh
pick_session pol target now draw p = elim (lookup pol.session p.sessions) [
  | none ↦ pick_fresh pol target now draw p
  | some sess ↦
      if is_empty pol.session || not (ltb now sess.expires_at)
      then pick_fresh pol target now draw p
      else pick_pinned pol target now draw sess p
]

-- A health scope stands for the destination.
abbrev pub scope_of : Policy → Bytes → Bytes
scope_of pol target = if is_empty pol.health_scope then target else pol.health_scope

abbrev pub at_capacity : Pool → Bool
at_capacity p =
    ltb 0 p.opts.max_concurrent_conns
    && leb p.opts.max_concurrent_conns (p.leased + p.pending_leases)

unfoldable pub pick_within : Policy → Bytes → ℕ → ℕ → Pool → Pool × Result Error Picked
unfolding pick_session
pick_within pol target now draw p =
    if ltb p.opts.max_session_ttl pol.ttl
    then (p, err policy_limit)
    else if ltb p.opts.max_batch_ttl pol.batch_ttl
    then (p, err policy_limit)
    else if at_capacity p
    then (record p { stat_busy = u64 (p.stat_busy + 1) }, err busy)
    else pick_session pol (scope_of pol target) now draw p

unfoldable pub pick : Policy → Bytes → ℕ → ℕ → Pool → Pool × Result Error Picked
unfolding pick_within expire
pick pol target now draw p = pick_within pol target now draw (expire now p)
