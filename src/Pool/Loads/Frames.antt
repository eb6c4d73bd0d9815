-- ===== src/Pool/Loads/Frames.antt =====
-- The operations that give and take no connection.
use global_egress.Shared.{
  ℕ, ◌+◌, ◌≡◌, refl, Bytes, bytes_eq, ◌==◌, arith, Bool-cases, Option-cases, inl, inr, Option, none,
  some, Addr, Result, ok, err, is_valid, not, ◌&&◌, addr_eq,
}
use global_egress.Policy.{Policy}
use global_egress.Pool.State.{SlotState, Pool, Error, BatchReservation}
use global_egress.Pool.Budget.{
  close_slot, prune_opens, tunnel_budget_available, reserve_capacity, victim,
}
use global_egress.Pool.Cooldowns.{expire, expire_cooldowns}
use global_egress.Pool.Reserve.{
  reserve_session, release_pending_session, reserve_batch, reserve_in, rollback_batch, release_held,
  bind_session,
}
use global_egress.Pool.Acquire.{note_failure, fail_slot}
use global_egress.Pool.Feedback.{
  rotate, report, report_on, report_found, cooldown_of, reported_slot, apply_report, cool_down,
  release_from_batches, end_session, disable_until, cool_until, forget_preferred, prefer,
  apply_prefer, set_public_ip, measured, ReportInput, PreferInput,
}
use global_egress.Pool.Pick.{find_slot}
use global_egress.Pool.Loads.{
  Frame, Frame-trans, Frame-refl, loads-update_same, loads-map_same, load_of-close_slot, load_of,
}

load_of-expire : (now : ℕ) (s : SlotState) → load_of (expire_cooldowns now s) ≡ load_of s
unfolding expire_cooldowns
load_of-expire now s = refl

pub expire-Frame : (now : ℕ) (p : Pool) → Frame p (expire now p)
unfolding expire
expire-Frame now p = record {
  opts = refl;
  leased = refl;
  pending = refl;
  loads = loads-map_same (expire_cooldowns now) p.slots (load_of-expire now);
}

pub tunnel_budget-Frame : (now : ℕ) (p : Pool) → Frame p (tunnel_budget_available now p).0
unfolding tunnel_budget_available prune_opens
tunnel_budget-Frame now p = ground arith

pub reserve_capacity-Frame : (p : Pool) → Frame p (reserve_capacity p).0
unfolding reserve_capacity
reserve_capacity-Frame p = elim (Option-cases (victim p.slots none)) [
  | inl e ↦ rw (e, reserve_capacity) (ground arith)
  | inr (v, e) ↦
      let same = loads-update_same v.spec.id close_slot p.slots load_of-close_slot in
      rw (e, reserve_capacity) (ground (arith, same))
]

pub reserve_session-Frame : (pol : Policy) (p : Pool) → Frame p (reserve_session pol p).0
unfolding reserve_session
reserve_session-Frame pol p = ground arith

pub release_pending-Frame : (name : Bytes) (p : Pool) → Frame p (release_pending_session name p)
unfolding release_pending_session
release_pending-Frame name p = ground arith

pub reserve_batch-Frame :
    (pol : Policy) (s : SlotState) (now : ℕ) (p : Pool) → Frame p (reserve_batch pol s now p).0
unfolding reserve_batch reserve_in
reserve_batch-Frame pol s now p = ground arith

pub rollback_batch-Frame : (r : Option BatchReservation) (p : Pool) → Frame p (rollback_batch r p)
unfolding rollback_batch release_held
rollback_batch-Frame none p = ground arith
rollback_batch-Frame (some r) p = ground arith

pub bind_session-Frame :
    (pol : Policy) (id : Bytes) (now : ℕ) (p : Pool) → Frame p (bind_session pol id now p)
unfolding bind_session
bind_session-Frame pol id now p = ground arith

load_of-fail :
    (base : ℕ) (e : Error) (now : ℕ) (s : SlotState) → load_of (fail_slot base e now s) ≡ load_of s
unfolding fail_slot
load_of-fail base e now s = ground arith

pub note_failure-Frame :
    (id : Bytes) (e : Error) (now : ℕ) (p : Pool) → Frame p (note_failure id e now p)
unfolding note_failure
note_failure-Frame id e now p = record {
  opts = refl;
  leased = refl;
  pending = refl;
  loads =
      loads-update_same id (fail_slot p.opts.failure_backoff e now) p.slots
        (load_of-fail p.opts.failure_backoff e now);
}

pub rotate-Frame : (name : Bytes) (p : Pool) → Frame p (rotate name p).0
unfolding rotate
rotate-Frame name p = ground arith

end_session-Frame : (name : Bytes) (p : Pool) → Frame p (end_session name p).0
unfolding end_session
end_session-Frame name p = ground arith

forget_preferred-Frame :
    (target : Bytes) (ip : Addr) (p : Pool) → Frame p (forget_preferred target ip p)
unfolding forget_preferred
forget_preferred-Frame target ip p = ground arith

release_from_batches-Frame : (id : Bytes) (p : Pool) → Frame p (release_from_batches id p)
unfolding release_from_batches
release_from_batches-Frame id p = ground arith

load_of-disable : (until : ℕ) (s : SlotState) → load_of (disable_until until s) ≡ load_of s
unfolding disable_until
load_of-disable until s = refl

load_of-cool :
    (target : Bytes) (until : ℕ) (s : SlotState) → load_of (cool_until target until s) ≡ load_of s
unfolding cool_until
load_of-cool target until s = refl

cool_down-Frame :
    (target : Bytes) (s : SlotState) (until : ℕ) (p : Pool) → Frame p (cool_down target s until p)
unfolding cool_down forget_preferred
cool_down-Frame target s until p = ground (
  arith,
  loads-update_same s.spec.id (disable_until until) p.slots (load_of-disable until),
  loads-update_same s.spec.id (cool_until target until) p.slots (load_of-cool target until),
)

apply_report-Frame :
    (r : ReportInput) (s : SlotState) (now : ℕ) (p : Pool) → Frame p (apply_report r s now p).0
unfolding apply_report
apply_report-Frame r s now p = record {
  opts = whole.opts;
  leased = whole.leased;
  pending = whole.pending;
  loads = whole.loads;
}
  where
    cooled : Pool
    cooled = cool_down r.target s (now + cooldown_of r p) p

    freed : Pool
    freed = release_from_batches s.spec.id cooled

    whole : Frame p (end_session r.session freed).0
    whole = Frame-trans (cool_down-Frame r.target s (now + cooldown_of r p) p) (
        Frame-trans (release_from_batches-Frame s.spec.id cooled)
          (end_session-Frame r.session freed))

report_on-Frame :
    (r : ReportInput) (id : Bytes) (now : ℕ) (p : Pool) → Frame p (report_on r id now p).0
unfolding report_on report_found
report_on-Frame r id now p = elim (Option-cases (find_slot id p.slots)) [
  | inl e ↦ rw (e, report_on) (Frame-refl p)
  | inr (s, e) ↦ rw (e, report_on) (report_branch s)
]
  where
    report_branch : (s : SlotState) → Frame p (report_found r s now p).0
    report_branch s = elim (Bool-cases (is_valid r.public_ip && not (s.public_ip == r.public_ip))) [
      | inl other ↦ rw (other, report_found) (Frame-refl p)
      | inr same ↦ rw (same, report_found) (apply_report-Frame r s now p)
    ]

pub report-Frame : (r : ReportInput) (now : ℕ) (p : Pool) → Frame p (report r now p).0
unfolding report
report-Frame r now p = split (reported_slot r p) refl
  where
    split : (x : Result Error Bytes) → reported_slot r p ≡ x → Frame p (report r now p).0
    split (err e) h = rw (h, report) (Frame-refl p)
    split (ok id) h = rw (h, report) (report_on-Frame r id now p)

pub prefer-Frame : (r : PreferInput) (now : ℕ) (p : Pool) → Frame p (prefer r now p).0
unfolding prefer apply_prefer
prefer-Frame r now p = ground arith

load_of-measured : (ip : Addr) (at : ℕ) (s : SlotState) → load_of (measured ip at s) ≡ load_of s
unfolding measured
load_of-measured ip at s = refl

pub set_public_ip-Frame :
    (s : SlotState) (ip : Addr) (at now : ℕ) (p : Pool) → Frame p (set_public_ip s ip at now p).0
unfolding set_public_ip
set_public_ip-Frame s ip at now p =
    ground (arith, loads-update_same s.spec.id (measured ip at) p.slots (load_of-measured ip at))
