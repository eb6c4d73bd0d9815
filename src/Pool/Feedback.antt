-- ===== src/Pool/Feedback.antt =====
-- What clients tell the pool: Report, Prefer and Rotate, and the traffic and address measurements, in
-- internal/pool/pool.go and inventory.go.
pub mod Blocks
use global_egress.Shared.{
  ℕ, ◌+◌, ◌-◌, ◌||◌, ◌&&◌, Bool, true, false, not, List, [], ◌∷◌, Option, none, some, Bytes,
  bytes_eq, nat_eq, Addr, addr_eq, if◌then◌else◌, ltb, leb, ◌==◌, Result, ok, err, Map, lookup,
  insert, delete, is_empty, is_some, is_valid, or_default, u64, map, map_values, retain,
}
use global_egress.Pool.State.{
  SlotState, EntryState, PreferredExit, Pool, Batch, Session, Error, unknown_session, unknown_slot,
  identity_mismatch, missing_target, no_stable_ip, no_measured_ip,
}
use global_egress.Pool.Batch.{release, contains, add_ip}
use global_egress.Pool.Preferred.{remember, remove_ip}
use global_egress.Pool.Cooldowns.{set_ip_cooldown, not_past}
use global_egress.Pool.Budget.{update_slot, update_slots}
use global_egress.Pool.Pick.{find_slot}
use global_egress.Pool.Acquire.{Lease}

-- Rotate
unfoldable pub rotate : Bytes → Pool → Pool × Bool
rotate name p =
    let existed = is_some (lookup name p.sessions) in
    let q = record p { sessions = delete name p.sessions } in
    (if existed then record q { stat_rotated = u64 (p.stat_rotated + 1) } else q, existed)

unfoldable pub release_if_used : Bytes → Batch → Batch
unfolding release contains
release_if_used id b = if contains id b.used_slots then release id b else b

-- A batch that the release left without a slot goes.
unfoldable pub survives : Bytes → Batch → Bool
unfolding release_if_used
survives id b = not (contains id b.used_slots) || not (is_empty (release id b).used_slots)

-- releaseSlotFromBatchesLocked
unfoldable pub release_from_batches : Bytes → Pool → Pool
unfolding release_if_used survives
release_from_batches id p = record p {
  batches = map_values (release_if_used id) (retain (λ _ b. survives id b) p.batches);
}

pub record ReportInput : Type 0 where
  pub session : Bytes
  pub slot : Bytes
  pub public_ip : Addr
  pub target : Bytes
  pub cooldown : ℕ

pub record ReportResult : Type 0 where
  pub slot : Bytes
  pub target : Bytes
  pub until : ℕ
  pub cooldown : ℕ
  pub rotated : Bool

-- The slot that a report is about.
unfoldable pub reported_slot : ReportInput → Pool → Result Error Bytes
reported_slot r p =
    if not (is_empty r.slot) || is_empty r.session
    then ok r.slot
    else elim (lookup r.session p.sessions) [
      | none ↦ err unknown_session
      | some sess ↦ ok sess.slot_id
    ]

unfoldable pub disable_until : ℕ → SlotState → SlotState
disable_until until s = record s { disabled_until = until }

unfoldable pub cool_until : Bytes → ℕ → SlotState → SlotState
cool_until target until s = record s { cooldowns = insert target until s.cooldowns }

-- The destination forgets the address as a preferred one.
unfoldable pub forget_preferred : Bytes → Addr → Pool → Pool
unfolding remove_ip
forget_preferred target ip p = elim (lookup target p.preferred) [
  | none ↦ p
  | some set ↦
      let kept = remove_ip ip set in
      record p {
        preferred =
            if is_empty kept then delete target p.preferred else insert target kept p.preferred;
      }
]

unfoldable pub cool_down : Bytes → SlotState → ℕ → Pool → Pool
unfolding disable_until cool_until forget_preferred set_ip_cooldown update_slots
cool_down target s until p =
    let cooled = update_slot s.spec.id (cool_until target until) p in
    if is_empty target
    then update_slot s.spec.id (disable_until until) p
    else forget_preferred target s.public_ip
        (record cooled { ip_cooldowns = set_ip_cooldown target s.public_ip until p.ip_cooldowns })

abbrev pub cooldown_of : ReportInput → Pool → ℕ
cooldown_of r p = if r.cooldown == 0 then p.opts.cooldown else r.cooldown

unfoldable pub end_session : Bytes → Pool → Pool × Bool
unfolding rotate
end_session name p = if is_empty name then (p, false) else rotate name p

-- The report of a slot that the pool knows.
unfoldable pub apply_report : ReportInput → SlotState → ℕ → Pool → Pool × ReportResult
unfolding cool_down release_from_batches end_session
apply_report r s now p =
    let until = now + cooldown_of r p in
    let freed = release_from_batches s.spec.id (cool_down r.target s until p) in
    let (q, rotated) = end_session r.session freed in
    (
      record q { stat_reports = u64 (q.stat_reports + 1) },
      record {
        slot = s.spec.id;
        target = r.target;
        until = until;
        cooldown = cooldown_of r p;
        rotated = rotated;
      },
    )

unfoldable pub report_found : ReportInput → SlotState → ℕ → Pool → Pool × Result Error ReportResult
unfolding apply_report
report_found r s now p =
    let (q, result) = apply_report r s now p in
    if is_valid r.public_ip && not (s.public_ip == r.public_ip)
    then (p, err identity_mismatch)
    else (q, ok result)

unfoldable pub report_on : ReportInput → Bytes → ℕ → Pool → Pool × Result Error ReportResult
unfolding report_found
report_on r id now p = elim (find_slot id p.slots) [
  | none ↦ (p, err unknown_slot)
  | some s ↦ report_found r s now p
]

-- Report
unfoldable pub report : ReportInput → ℕ → Pool → Pool × Result Error ReportResult
unfolding reported_slot report_on
report r now p = elim (reported_slot r p) [ err e ↦ (p, err e) | ok id ↦ report_on r id now p ]

pub record PreferInput : Type 0 where
  pub slot : Bytes
  pub public_ip : Addr
  pub target : Bytes
  pub ttl : ℕ

pub record PreferResult : Type 0 where
  pub slot : Bytes
  pub target : Bytes
  pub until : ℕ
  pub ttl : ℕ

unfoldable pub apply_prefer : PreferInput → SlotState → ℕ → Pool → Pool × Result Error PreferResult
unfolding remember
apply_prefer r s now p =
    let ttl = if r.ttl == 0 then p.opts.preferred_ttl else r.ttl in
    let set : List PreferredExit = or_default (lookup r.target p.preferred) [] in
    let ring = remember r.slot s.public_ip (now + ttl) p.opts.preferred_max set in
    if s.spec.rotating
    then (p, err no_stable_ip)
    else if not (is_valid s.public_ip)
    then (p, err no_measured_ip)
    else if is_valid r.public_ip && not (s.public_ip == r.public_ip)
    then (p, err identity_mismatch)
    else (
      record p { preferred = insert r.target ring p.preferred },
      ok (record { slot = r.slot; target = r.target; until = now + ttl; ttl = ttl }),
    )

-- Prefer
unfoldable pub prefer : PreferInput → ℕ → Pool → Pool × Result Error PreferResult
unfolding apply_prefer
prefer r now p =
    if is_empty r.target then (p, err missing_target) else elim (find_slot r.slot p.slots) [
      | none ↦ (p, err unknown_slot)
      | some s ↦ apply_prefer r s now p
    ]

-- setPublicIPLocked, at each live batch that has reserved the slot.
unfoldable pub learn_ip : Bytes → Addr → ℕ → Batch → Batch
unfolding contains add_ip
learn_ip id ip now b = if contains id b.used_slots then add_ip id ip now b else b

unfoldable pub measured : Addr → ℕ → SlotState → SlotState
measured ip checked_at s = record s { public_ip = ip; ip_checked_at = checked_at }

unfoldable pub set_public_ip : SlotState → Addr → ℕ → ℕ → Pool → Pool × Bool
unfolding learn_ip measured update_slots
set_public_ip s ip checked_at now p =
    let q = update_slot s.spec.id (measured ip checked_at) p in
    (
      record q {
        batches =
            map_values (learn_ip s.spec.id ip now)
              (retain (λ _ b. not_past now b.expires_at) q.batches);
      },
      not (s.public_ip == ip),
    )
