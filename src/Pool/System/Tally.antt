-- ===== src/Pool/System/Tally.antt =====
-- The counters of the pool against the requests in flight.
use global_egress.Shared.{
  ℕ, ◌+◌, ◌-◌, ◌≡◌, refl, ap, ◌∙◌, List, [], ◌∷◌, ◌++◌, map, Bytes, bytes_eq, ◌==◌, arith,
  Bool-cases, inl, inr, count_if, true, false, Bool, not, ◌&&◌, is_empty,
}
use global_egress.Policy.{Policy}
use global_egress.Pool.State.{SlotState, Pool, Error}
use global_egress.Pool.Budget.{update_slots}
use global_egress.Pool.Loads.{Load, Frame, Frame-trans, loads, loads-update, load_of, at_id}
use global_egress.Pool.Loads.Frames.{
  release_pending-Frame, rollback_batch-Frame, note_failure-Frame, bind_session-Frame,
}
use global_egress.Pool.Reserve.{
  commit_acquisition, rollback_acquisition, drop_pending, release_pending_session, bind_session,
}
use global_egress.Pool.Pick.{Picked}
use global_egress.Pool.Acquire.{
  Lease, commit, start_lease, record_acquisition, give_up, note_failure, drop_session,
  release_lease, end_lease,
}

abbrev pub waits_at : Bytes → Picked → Bool
waits_at id x = x.slot.spec.id == id

abbrev pub lives_at : Bytes → Lease → Bool
lives_at id l = l.slot == id

-- How many requests wait for a dialer of the slot, and how many connections it carries.
abbrev pub waiting_at : Bytes → List Picked → ℕ
waiting_at id = count_if (waits_at id)

abbrev pub live_at : Bytes → List Lease → ℕ
live_at id = count_if (lives_at id)

pub count_if-append {ℓ} :
    {A : Type ℓ} (t : A → Bool) (xs ys : List A)
    → count_if t (xs ++ ys) ≡ count_if t xs + count_if t ys
count_if-append t [] ys = omega arith
count_if-append t (x ∷ xs) ys = omega (arith, count_if-append t xs ys)

-- A load that counts the requests in flight at its slot.
abbrev pub IsTallied : List Picked → List Lease → Load → Type 0
IsTallied waiting live l = (l.leases ≡ live_at l.id live) × (l.pending ≡ waiting_at l.id waiting)

-- A reservation in flight is for the slot that was picked, and is not settled.
abbrev pub IsUnsettled : Picked → Type 0
IsUnsettled x = (x.reservation.slot ≡ x.slot.spec.id) × (x.reservation.active ≡ true)

-- What committing a reservation does to the connections.
pub record Settles (p q : Pool) (id : Bytes) : Type 0 where
  pub opts : q.opts ≡ p.opts
  pub leased : q.leased ≡ p.leased
  pub pending : q.pending_leases ≡ p.pending_leases - 1
  pub loads :
      loads q.slots ≡ map (at_id id (λ l. record l { pending = l.pending - 1 })) (loads p.slots)

load_of-drop_pending :
    (s : SlotState)
    → load_of (drop_pending s) ≡ record (load_of s) { pending = s.pending_leases - 1 }
unfolding drop_pending
load_of-drop_pending s = refl

pub commit_acquisition-Settles :
    (x : Picked) (p : Pool)
    → IsUnsettled x
    → Settles p (commit_acquisition x.reservation p).0 x.slot.spec.id
unfolding commit_acquisition
commit_acquisition-Settles x p (same, active) =
    rw (active, same)
      (record {
        opts = f.opts;
        leased = f.leased;
        pending = ap (λ n. n - 1) f.pending;
        loads =
            loads-update x.slot.spec.id drop_pending (λ l. record l { pending = l.pending - 1 }) _
              load_of-drop_pending
            ∙ ap (map (at_id x.slot.spec.id (λ l. record l { pending = l.pending - 1 }))) f.loads;
      })
  where
    f : Frame p (release_pending_session x.reservation.session p)
    f = release_pending-Frame x.reservation.session p

record_acquisition-Frame : (country : Bytes) (p : Pool) → Frame p (record_acquisition country p)
unfolding record_acquisition
record_acquisition-Frame country p = record {
  opts = refl;
  leased = refl;
  pending = refl;
  loads = refl;
}

load_of-start_lease :
    (now : ℕ) (s : SlotState)
    → load_of (start_lease now s) ≡ record (load_of s) { leases = s.leases + 1 }
unfolding start_lease
load_of-start_lease now s = refl

load_of-end_lease :
    (now : ℕ) (s : SlotState)
    → load_of (end_lease now s) ≡ record (load_of s) { leases = s.leases - 1 }
unfolding end_lease
load_of-end_lease now s = refl

abbrev pub to_lease : Load → Load
to_lease l = record l { leases = l.leases + 1; pending = l.pending - 1 }

map-at_id :
    (id : Bytes) (f g : Load → Load) (ls : List Load)
    → ((l : Load) → (f l).id ≡ l.id)
    → map (at_id id g) (map (at_id id f) ls) ≡ map (at_id id (λ l. g (f l))) ls
unfolding at_id
map-at_id id f g [] same = refl
map-at_id id f g (l ∷ ls) same = elim (Bool-cases (l.id == id)) [
  | inl e ↦ rw (e, same l, e, map-at_id id f g ls same) refl
  | inr e ↦ rw (e, e, map-at_id id f g ls same) refl
]

-- A reservation becomes a lease.
pub record Commits (p q : Pool) (id : Bytes) : Type 0 where
  pub opts : q.opts ≡ p.opts
  pub leased : q.leased ≡ p.leased + 1
  pub pending : q.pending_leases ≡ p.pending_leases - 1
  pub loads : loads q.slots ≡ map (at_id id to_lease) (loads p.slots)

pub commit-Commits :
    (pol : Policy) (x : Picked) (now : ℕ) (p : Pool)
    → IsUnsettled x
    → Commits p (commit pol x now p) x.slot.spec.id
unfolding commit
commit-Commits pol x now p u = record {
  opts = after.opts ∙ settled.opts;
  leased = after.leased ∙ ap (λ n. n + 1) settled.leased;
  pending = after.pending ∙ settled.pending;
  loads =
      after.loads
      ∙ loads-update id (start_lease now) (λ l. record l { leases = l.leases + 1 }) _
          (load_of-start_lease now)
      ∙ ap (map (at_id id (λ l. record l { leases = l.leases + 1 }))) settled.loads
      ∙ map-at_id id _ _ (loads p.slots) (λ l. refl);
}
  where
    id : Bytes
    id = x.slot.spec.id

    q : Pool
    q = (commit_acquisition x.reservation p).0

    settled : Settles p q id
    settled = commit_acquisition-Settles x p u

    started : Pool
    started = record q { slots = update_slots id (start_lease now) q.slots; leased = q.leased + 1 }

    after : Frame started (record_acquisition x.slot.spec.country (bind_session pol id now started))
    after =
        Frame-trans (bind_session-Frame pol id now started)
          (record_acquisition-Frame x.slot.spec.country (bind_session pol id now started))

pub drop_session-Frame : (name : Bytes) (p : Pool) → Frame p (drop_session name p)
unfolding drop_session
drop_session-Frame name p = record { opts = refl; leased = refl; pending = refl; loads = refl }

pub rollback_acquisition-Settles :
    (x : Picked) (p : Pool)
    → IsUnsettled x
    → Settles p (rollback_acquisition x.reservation p) x.slot.spec.id
unfolding rollback_acquisition
rollback_acquisition-Settles x p u =
    let settled = commit_acquisition-Settles x p u in
    let f = rollback_batch-Frame x.reservation.batch (commit_acquisition x.reservation p).0 in
    record {
      opts = f.opts ∙ settled.opts;
      leased = f.leased ∙ settled.leased;
      pending = f.pending ∙ settled.pending;
      loads = f.loads ∙ settled.loads;
    }

pub give_up-Settles :
    (pol : Policy) (x : Picked) (e : Error) (now : ℕ) (p : Pool)
    → IsUnsettled x
    → Settles p (give_up pol x e now p) x.slot.spec.id
unfolding give_up
give_up-Settles pol x e now p u = record {
  opts = after.opts ∙ settled.opts;
  leased = after.leased ∙ settled.leased;
  pending = after.pending ∙ settled.pending;
  loads = after.loads ∙ settled.loads;
}
  where
    q : Pool
    q = rollback_acquisition x.reservation p

    settled : Settles p q x.slot.spec.id
    settled = rollback_acquisition-Settles x p u

    failed : Pool
    failed = note_failure x.slot.spec.id e now q

    blamed : Frame q failed
    blamed = note_failure-Frame x.slot.spec.id e now q

    after : Frame q (give_up pol x e now p)
    after = elim (Bool-cases (x.sticky && not (is_empty pol.session))) [
      | inl pinned ↦ rw pinned (Frame-trans blamed (drop_session-Frame pol.session failed))
      | inr free ↦ rw free blamed
    ]

-- A connection ends.
pub record Ends (p q : Pool) (id : Bytes) : Type 0 where
  pub opts : q.opts ≡ p.opts
  pub leased : q.leased ≡ p.leased - 1
  pub pending : q.pending_leases ≡ p.pending_leases
  pub loads :
      loads q.slots ≡ map (at_id id (λ l. record l { leases = l.leases - 1 })) (loads p.slots)

pub release_lease-Ends :
    (l : Lease) (now : ℕ) (p : Pool) → l.released ≡ false → Ends p (release_lease l now p).0 l.slot
unfolding release_lease
release_lease-Ends l now p open_lease = rw open_lease (record {
  opts = refl;
  leased = refl;
  pending = refl;
  loads =
      loads-update l.slot (end_lease now) (λ l. record l { leases = l.leases - 1 }) p.slots
        (load_of-end_lease now);
})
