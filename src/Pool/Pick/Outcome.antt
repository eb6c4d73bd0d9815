-- ===== src/Pool/Pick/Outcome.antt =====
-- What one selection does, on every branch of `pick`: the slot that it returns, and the connection
-- that it reserves.
use global_egress.Shared.{
  ℕ, ◌+◌, ◌≡◌, refl, ap, ◌∙◌, map, Bytes, bytes_eq, Option, Result, ok, err, true,
}
use global_egress.Policy.{Policy}
use global_egress.Pool.State.{SlotState, Pool, Error, BatchReservation, Reservation}
use global_egress.Pool.Reserve.{
  reserve_session, reserve_batch, reserve_rest, reserve_acquisition, add_pending,
}
use global_egress.Pool.Loads.{Load, Frame, Frame-trans, loads, loads-update, load_of, at_id}
use global_egress.Pool.Loads.Frames.{
  reserve_session-Frame, release_pending-Frame, reserve_batch-Frame,
}

abbrev pub bump_pending : Load → Load
bump_pending l = record l { pending = l.pending + 1 }

-- One more connection is reserved, at the slot, by a reservation that is not settled.
pub record Reserves (p q : Pool) (id : Bytes) (r : Reservation) : Type 0 where
  pub opts : q.opts ≡ p.opts
  pub leased : q.leased ≡ p.leased
  pub pending : q.pending_leases ≡ p.pending_leases + 1
  pub loads : loads q.slots ≡ map (at_id id bump_pending) (loads p.slots)
  pub slot : r.slot ≡ id
  pub active : r.active ≡ true

-- A failure leaves every connection as it was.
abbrev pub ReservationOutcome : Pool → Bytes → Pool → Result Error Reservation → Type 0
ReservationOutcome p id q (ok r) = Reserves p q id r
ReservationOutcome p id q (err e) = Frame p q

load_of-add_pending : (s : SlotState) → load_of (add_pending s) ≡ bump_pending (load_of s)
unfolding add_pending
load_of-add_pending s = refl

reserve_rest-Outcome :
    (pol : Policy) (s : SlotState) (now : ℕ) (name : Bytes) (p : Pool)
    → let out = reserve_rest pol s now name p in ReservationOutcome p s.spec.id out.0 out.1
unfolding reserve_rest
reserve_rest-Outcome pol s now name p = split (reserve_batch pol s now p).1 refl
  where
    frame : Frame p (reserve_batch pol s now p).0
    frame = reserve_batch-Frame pol s now p

    split :
        (b : Result Error (Option BatchReservation))
        → (reserve_batch pol s now p).1 ≡ b
        → let out = reserve_rest pol s now name p in ReservationOutcome p s.spec.id out.0 out.1
    split (err e) h =
        rw (h, reserve_rest)
          (Frame-trans frame (release_pending-Frame name (reserve_batch pol s now p).0))
    split (ok b) h =
        rw (h, reserve_rest)
          (record {
            opts = frame.opts;
            leased = frame.leased;
            pending = ap (λ n. n + 1) frame.pending;
            loads =
                loads-update s.spec.id add_pending bump_pending _ load_of-add_pending
                ∙ ap (map (at_id s.spec.id bump_pending)) frame.loads;
            slot = refl;
            active = refl;
          })

pub Outcome-after :
    {p q : Pool} (id : Bytes) (r : Pool) (x : Result Error Reservation)
    → Frame p q
    → ReservationOutcome q id r x
    → ReservationOutcome p id r x
Outcome-after id r (err e) f o = Frame-trans f o
Outcome-after id r (ok x) f o = record {
  opts = o.opts ∙ f.opts;
  leased = o.leased ∙ f.leased;
  pending = o.pending ∙ ap (λ n. n + 1) f.pending;
  loads = o.loads ∙ ap (map (at_id id bump_pending)) f.loads;
  slot = o.slot;
  active = o.active;
}

pub reserve_acquisition-Outcome :
    (pol : Policy) (s : SlotState) (now : ℕ) (p : Pool)
    → let out = reserve_acquisition pol s now p in ReservationOutcome p s.spec.id out.0 out.1
unfolding reserve_acquisition
reserve_acquisition-Outcome pol s now p = split (reserve_session pol p).1 refl
  where
    split :
        (b : Result Error Bytes)
        → (reserve_session pol p).1 ≡ b
        → let out = reserve_acquisition pol s now p in ReservationOutcome p s.spec.id out.0 out.1
    split (err e) h = rw (h, reserve_acquisition) (reserve_session-Frame pol p)
    split (ok name) h =
        rw (h, reserve_acquisition)
          (Outcome-after s.spec.id _ _ (reserve_session-Frame pol p)
            (reserve_rest-Outcome pol s now name (reserve_session pol p).0))
