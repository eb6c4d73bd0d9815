-- ===== src/Pool/System/Semaphore.antt =====
-- What the pool promises of its connections, and that its detailed steps keep the promise: a counting
-- semaphore whose permits are first reserved and then held.
use global_egress.Shared.{
  ℕ, ◌+◌, ◌-◌, ◌<◌, ◌≡◌, ◌⊎◌, refl, sym, ap, subst, ◌∙◌, List, [], ◌∷◌, ◌++◌, arith, inl, inr,
  length, length-append, All-In, In,
}
use global_egress.Pool.State.{Pool}
use global_egress.Pool.Cooldowns.{expire}
use global_egress.Pool.Loads.{Frame, Frame-trans}
use global_egress.Pool.Loads.Frames.{
  expire-Frame, note_failure-Frame, report-Frame, prefer-Frame, rotate-Frame, set_public_ip-Frame,
}
use global_egress.Pool.Pick.{Picked, pick, scope_of}
use global_egress.Pool.Pick.Outcome.{Reserves}
use global_egress.Pool.Pick.Stages.{PickOutcome}
use global_egress.Pool.Pick.Whole.{pick-Admitted, pick-Outcome}
use global_egress.Pool.Reserve.{rollback_acquisition}
use global_egress.Pool.Acquire.{Lease, commit, note_failure, drop_session, release_lease}
use global_egress.Pool.Feedback.{report, prefer, rotate, set_public_ip}
use global_egress.Pool.System.{
  System, Step, picks, refuses, commits, gives_up, notes_failure, drops_session, releases, reports,
  prefers, rotates, measures, Reach, here, next,
}
use global_egress.Pool.System.Tally.{
  IsUnsettled, commit-Commits, rollback_acquisition-Settles, drop_session-Frame, release_lease-Ends,
}
use global_egress.Pool.System.Limits.{IsOpen, Inv, IsIdle, IsIdle-Inv, Reach-Inv}

-- A limit of 0 is none.
pub record Semaphore : Type 0 where
  pub limit : ℕ
  pub reserved : ℕ
  pub held : ℕ

-- What a step does to the permits.
pub data Action : Type 0 where
  reserve grant cancel free stay : Action

pub data SemaphoreStep (m : Semaphore) : Action → Semaphore → Type 0 where
  reserves :
      (m.limit ≡ 0) ⊎ (m.held + m.reserved < m.limit)
      → SemaphoreStep m reserve (record m { reserved = m.reserved + 1 })
  grants :
      0 < m.reserved
      → SemaphoreStep m grant (record m { reserved = m.reserved - 1; held = m.held + 1 })
  cancels : 0 < m.reserved → SemaphoreStep m cancel (record m { reserved = m.reserved - 1 })
  frees : 0 < m.held → SemaphoreStep m free (record m { held = m.held - 1 })
  stays : SemaphoreStep m stay m

-- The runs that take the actions of the list, the last one first.
pub data SemaphoreRun (m : Semaphore) : List Action → Semaphore → Type 0 where
  start : SemaphoreRun m [] m
  step :
      {done : List Action} {n k : Semaphore} {a : Action}
      → SemaphoreRun m done n
      → SemaphoreStep n a k
      → SemaphoreRun m (a ∷ done) k

-- What each step of the pool has to be for the semaphore.
abbrev pub action_of : {s t : System} → Step s t → Action
action_of (picks pol target now draw x h) = reserve
action_of (commits pol entry now before after x h) = grant
action_of (gives_up before after x h) = cancel
action_of (releases now before after l h) = free
action_of _ = stay

abbrev pub actions : {s t : System} → Reach s t → List Action
actions here = []
actions (next r st) = action_of st ∷ actions r

-- The semaphore that the counters of the pool stand for.
abbrev pub semaphore_of : Pool → Semaphore
semaphore_of p = record {
  limit = p.opts.max_concurrent_conns;
  reserved = p.pending_leases;
  held = p.leased;
}

semaphore_at :
    {m : Semaphore} {a : Action} (n : Semaphore) (p : Pool)
    → SemaphoreStep m a n
    → p.opts.max_concurrent_conns ≡ n.limit
    → p.pending_leases ≡ n.reserved
    → p.leased ≡ n.held
    → SemaphoreStep m a (semaphore_of p)
semaphore_at n p st limit reserved held = rw (limit, reserved, held) st

unmoved : (p q : Pool) → Frame p q → SemaphoreStep (semaphore_of p) stay (semaphore_of q)
unmoved p q f =
    semaphore_at (semaphore_of p) q SemaphoreStep.stays (ap (λ o. o.max_concurrent_conns) f.opts)
      f.pending f.leased

module _ {A : Type 0} (before after xs : List A) (x : A) (h : xs ≡ before ++ x ∷ after) where
  some_left : 0 < length xs
  some_left = omega (arith, ap length h, length-append before (x ∷ after))

In-middle : (before after : List Picked) (x : Picked) → In x (before ++ x ∷ after)
In-middle [] after x = inl refl
In-middle (y ∷ before) after x = inr (In-middle before after x)

In-middle-lease : (before after : List Lease) (x : Lease) → In x (before ++ x ∷ after)
In-middle-lease [] after x = inl refl
In-middle-lease (y ∷ before) after x = inr (In-middle-lease before after x)

Step-SemaphoreStep :
    {s t : System} (st : Step s t)
    → Inv s
    → SemaphoreStep (semaphore_of s.pool) (action_of st) (semaphore_of t.pool)
Step-SemaphoreStep {s} (picks pol target now draw x h) v =
    let f = expire-Frame now s.pool in
    let r : Reserves (expire now s.pool) (pick pol target now draw s.pool).0 x.slot.spec.id
        x.reservation =
      (subst
        (PickOutcome (expire now s.pool) pol (scope_of pol target) now
          (pick pol target now draw s.pool).0)
        h (pick-Outcome s.pool pol target now draw)).0 in
    semaphore_at (record (semaphore_of s.pool) { reserved = s.pool.pending_leases + 1 })
      (pick pol target now draw s.pool).0
      (SemaphoreStep.reserves (
        ground (
          arith,
          (pick-Admitted s.pool pol target now draw x h).room,
          f.leased,
          f.pending,
          ap (λ o. o.max_concurrent_conns) f.opts,
        )))
      (ap (λ o. o.max_concurrent_conns) (r.opts ∙ f.opts)) (omega (arith, r.pending, f.pending))
      (r.leased ∙ f.leased)
Step-SemaphoreStep {s} (refuses pol target now draw e h) v =
    unmoved s.pool (pick pol target now draw s.pool).0 (
      Frame-trans (expire-Frame now s.pool) (
        subst
          (PickOutcome (expire now s.pool) pol (scope_of pol target) now
            (pick pol target now draw s.pool).0)
          h (pick-Outcome s.pool pol target now draw)))
Step-SemaphoreStep {s} (commits pol entry now before after x h) v =
    let unsettled =
      All-In IsUnsettled s.waiting v.unsettled (subst (In x) (sym h) (In-middle before after x)) in
    let c = commit-Commits pol x now s.pool unsettled in
    semaphore_at
      (record (semaphore_of s.pool) {
        reserved = s.pool.pending_leases - 1;
        held = s.pool.leased + 1;
      })
      (commit pol x now s.pool)
      (SemaphoreStep.grants (omega (arith, v.pending, some_left before after s.waiting x h)))
      (ap (λ o. o.max_concurrent_conns) c.opts) c.pending c.leased
Step-SemaphoreStep {s} (gives_up before after x h) v =
    let unsettled =
      All-In IsUnsettled s.waiting v.unsettled (subst (In x) (sym h) (In-middle before after x)) in
    let c = rollback_acquisition-Settles x s.pool unsettled in
    semaphore_at (record (semaphore_of s.pool) { reserved = s.pool.pending_leases - 1 })
      (rollback_acquisition x.reservation s.pool)
      (SemaphoreStep.cancels (omega (arith, v.pending, some_left before after s.waiting x h)))
      (ap (λ o. o.max_concurrent_conns) c.opts) c.pending c.leased
Step-SemaphoreStep {s} (releases now before after l h) v =
    let unreleased =
      All-In IsOpen s.live v.unreleased (subst (In l) (sym h) (In-middle-lease before after l)) in
    let c = release_lease-Ends l now s.pool unreleased in
    semaphore_at (record (semaphore_of s.pool) { held = s.pool.leased - 1 })
      (release_lease l now s.pool).0
      (SemaphoreStep.frees (omega (arith, v.leased, some_left before after s.live l h)))
      (ap (λ o. o.max_concurrent_conns) c.opts) c.pending c.leased
Step-SemaphoreStep {s} (notes_failure id e now) v =
    unmoved s.pool (note_failure id e now s.pool) (note_failure-Frame id e now s.pool)
Step-SemaphoreStep {s} (drops_session name) v =
    unmoved s.pool (drop_session name s.pool) (drop_session-Frame name s.pool)
Step-SemaphoreStep {s} (reports r now) v =
    unmoved s.pool (report r now s.pool).0 (report-Frame r now s.pool)
Step-SemaphoreStep {s} (prefers r now) v =
    unmoved s.pool (prefer r now s.pool).0 (prefer-Frame r now s.pool)
Step-SemaphoreStep {s} (rotates name) v =
    unmoved s.pool (rotate name s.pool).0 (rotate-Frame name s.pool)
Step-SemaphoreStep {s} (measures slot ip at now) v =
    unmoved s.pool (set_public_ip slot ip at now s.pool).0
      (set_public_ip-Frame slot ip at now s.pool)

-- The pool refines a counting semaphore, step by step. From a pool with no connection, every run of
-- its detailed steps, in any order, is the run of the semaphore on the counters of the pool that takes
-- one action for each of them, and this action: a selection reserves a permit (only while there is
-- room), a dialer that came up grants one that was reserved, a rollback cancels one that was reserved,
-- a release frees one that was held, and every other step (a refused selection, a noted failure, a
-- dropped session, feedback, a rotation, a measurement) leaves the permits as they are.
pub Reach-SemaphoreRun :
    {s t : System}
    → IsIdle s
    → (r : Reach s t) → SemaphoreRun (semaphore_of s.pool) (actions r) (semaphore_of t.pool)
Reach-SemaphoreRun i here = SemaphoreRun.start
Reach-SemaphoreRun {s} i (next r st) =
    SemaphoreRun.step (Reach-SemaphoreRun i r)
      (Step-SemaphoreStep st (Reach-Inv (IsIdle-Inv s i) r))
