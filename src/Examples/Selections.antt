-- ===== src/Examples/Selections.antt =====
-- Selections, leases and reports on the concrete pool.
use global_egress.Shared.{
  ◌+◌, ◌≤◌, ◌≡◌, ◌≢◌, ◌⊎◌, refl, true, inl, false, [], ◌∷◌, length, some, bytes_eq, codes,
  zero_addr, addr_eq, Result, ok, err, lookup, retain, map_values, insert, delete, bytes_beq,
  addr_beq, In, arith,
}
use global_egress.Policy.{Policy}
use global_egress.Pool.State.{SlotState, Batch, Pool, Error}
use global_egress.Pool.Batch.{new_batch}
use global_egress.Pool.Cooldowns.{expire}
use global_egress.Pool.Eligible.{without_batch, eligible, ready}
use global_egress.Pool.Eligible.Serves.{Serves}
use global_egress.Pool.Pick.{Picked, pick, find_slot}
use global_egress.Pool.Pick.Choice.{Recycled, candidates-filter}
use global_egress.Pool.Pick.{candidates}
use global_egress.Shared.{filter}
use global_egress.Pool.Pick.Whole.{pick-Serves}
use global_egress.Pool.Acquire.{commit, lease_of}
use global_egress.Pool.Feedback.{ReportInput, ReportResult, report}
use global_egress.Pool.Feedback.Blocks.{IsExit, report-pick_avoids}
use global_egress.Pool.System.{System, Step, Reach}
use global_egress.Pool.System.Tally.{waiting_at, live_at}
use global_egress.Pool.System.Semaphore.{
  reserve, grant, SemaphoreRun, semaphore_of, Reach-SemaphoreRun,
}
use global_egress.Pool.System.Limits.{Capped, IsIdle, Reach-limits}
use global_egress.Pool.State.{cancelled}
use global_egress.Pool.Eligible.Admits.{admits}
use global_egress.Pool.Pick.{recycle}
use global_egress.Pool.Pick.Oldest.{recycle-oldest}
use global_egress.Pool.Pick.Choice.{IsBurned, burn_of}
use global_egress.Pool.Acquire.{note_failure}
use global_egress.Pool.Pick.Sticky.{pick-sticky}
use global_egress.Pool.Pick.{scope_of}
use global_egress.Pool.State.{Session}
use global_egress.Pool.Acquire.Backoff.{note_failure-pick_avoids}
use global_egress.Examples.Data.{
  japan, sweden, a_spec, a_slot, japan_ip, sweden_ip, the_pool, the_policy, example_com, got,
  nothing,
}

abbrev first : Picked
unfolding pick
first = got (pick the_policy example_com 200 0 the_pool).1 nothing

the_pick : (pick the_policy example_com 200 0 the_pool).1 ≡ ok first
unfolding pick lookup retain map_values eligible ready delete
the_pick = refl

pick-Serves_example :
    let q = expire 200 the_pool in
    In first.slot q.slots
    × (Serves q first.slot the_policy example_com 200
        ⊎ (Recycled q the_policy example_com 200 first.slot
            × Serves q first.slot (without_batch the_policy) example_com 200))
pick-Serves_example = pick-Serves the_pool the_policy example_com 200 0 first the_pick

-- The slot waits for its dialer, and becomes a lease.
abbrev start : System
start = record { pool = the_pool; waiting = []; live = [] }

abbrev waiting_once : System
unfolding pick
waiting_once = record {
  pool = (pick the_policy example_com 200 0 the_pool).0;
  waiting = first ∷ [];
  live = [];
}

abbrev leased_once : System
unfolding pick commit lease_of
leased_once = record {
  pool = commit the_policy first 210 waiting_once.pool;
  waiting = [];
  live = lease_of the_policy first [] waiting_once.pool ∷ [];
}

unfoldable to_leased_once : Reach start leased_once
unfolding pick commit lease_of
to_leased_once =
    Reach.next (Reach.next Reach.here (Step.picks the_policy example_com 200 0 first the_pick))
      (Step.commits the_policy [] 210 [] [] first refl)

start-IsIdle : IsIdle start
start-IsIdle = record {
  no_waiting = refl;
  no_live = refl;
  leased = refl;
  pending = refl;
  slots = ((refl, refl), ((refl, refl), tt));
}

Reach-limits_example :
    let p = leased_once.pool in
    Capped p.opts.max_concurrent_conns (p.leased + p.pending_leases)
    × ((u : SlotState)
        → In u p.slots
        → Capped p.opts.max_conns_per_exit (u.leases + u.pending_leases)
          × (u.leases ≡ live_at u.spec.id leased_once.live)
          × (u.pending_leases ≡ waiting_at u.spec.id leased_once.waiting))
    × (p.leased ≡ length leased_once.live)
    × (p.pending_leases ≡ length leased_once.waiting)
Reach-limits_example = Reach-limits start-IsIdle to_leased_once

-- The exit in Japan is reported, and the next request for the destination gets the other one.
abbrev the_report : ReportInput
the_report = record {
  session = [];
  slot = japan;
  public_ip = zero_addr;
  target = example_com;
  cooldown = 50;
}

abbrev no_report : ReportResult
no_report = record { slot = []; target = []; until = 0; cooldown = 0; rotated = false }

abbrev the_answer : Result Error ReportResult → ReportResult
the_answer (ok r) = r
the_answer (err e) = no_report

abbrev reported : ReportResult
unfolding report
reported = the_answer (report the_report 200 the_pool).1

abbrev second : Picked
unfolding pick report
second = got (pick the_policy example_com 210 0 (report the_report 200 the_pool).0).1 nothing

the_report_answers : (report the_report 200 the_pool).1 ≡ ok reported
unfolding report bytes_beq
the_report_answers = refl

the_next_pick : (pick the_policy example_com 210 0 (report the_report 200 the_pool).0).1 ≡ ok second
unfolding pick report bytes_beq lookup retain map_values eligible insert addr_beq ready delete
the_next_pick = refl

report-pick_avoids_example :
    (s : SlotState) × (find_slot reported.slot the_pool.slots ≡ some s)
    × (¬ IsExit reported.slot s.public_ip second.slot)
unfolding report bytes_beq
report-pick_avoids_example =
    report-pick_avoids the_report 200 the_pool reported the_policy example_com 210 0 second
      the_report_answers (λ e. cc) refl (omega arith) the_next_pick

-- A batch that has burned both exits, the one in Sweden first, gives that one again.
abbrev dry_batch : Batch
dry_batch = record (new_batch 0 800) {
  used_ips = (japan_ip, 800) ∷ (sweden_ip, 800) ∷ [];
  burn_seq = (japan_ip, 2) ∷ (sweden_ip, 1) ∷ [];
  next_burn = 2;
  used_slots = japan ∷ sweden ∷ [];
}

abbrev dry_pool : Pool
dry_pool = record the_pool { batches = (codes "b", dry_batch) ∷ [] }

abbrev recycling : Policy
recycling = record the_policy { recycle_batch = true }

abbrev japan_slot : SlotState
japan_slot = a_slot (a_spec japan (codes "jp")) japan_ip

dry_batch_found : lookup recycling.unique_batch dry_pool.batches ≡ some dry_batch
unfolding lookup bytes_beq
dry_batch_found = refl

japan_admitted : admits dry_pool japan_slot (without_batch recycling) example_com 200 ≡ true
unfolding admits lookup
japan_admitted = refl

japan-IsBurned : IsBurned dry_batch japan_slot
unfolding lookup addr_beq
japan-IsBurned = refl

recycle-oldest_example :
    (s : SlotState) × ((recycle recycling example_com 200 dry_pool).1 ≡ some s)
    × In s dry_pool.slots
    × (admits dry_pool s (without_batch recycling) example_com 200 ≡ true)
    × IsBurned dry_batch s
    × (burn_of dry_batch s ≤ burn_of dry_batch japan_slot)
unfolding new_batch
recycle-oldest_example =
    recycle-oldest dry_pool dry_batch recycling example_com 200 japan_slot refl (λ e. cc)
      dry_batch_found (omega arith) (inl refl) japan_admitted japan-IsBurned

-- The exit in Japan fails, and the next request gets the other one.
abbrev after_failure : Pool
after_failure = note_failure japan cancelled 200 the_pool

abbrev third : Picked
unfolding pick note_failure
third = got (pick the_policy example_com 210 0 after_failure).1 nothing

failure_answers : (pick the_policy example_com 210 0 after_failure).1 ≡ ok third
unfolding pick note_failure lookup retain map_values eligible ready delete
failure_answers = refl

note_failure-pick_avoids_example : third.slot.spec.id ≢ japan
note_failure-pick_avoids_example =
    note_failure-pick_avoids the_pool japan cancelled 200 the_policy example_com 210 0 third
      (omega arith) (omega arith) failure_answers

-- A session that is bound to the exit in Sweden.
abbrev sticky_policy : Policy
sticky_policy = record the_policy { unique_batch = []; session = codes "s" }

abbrev the_session : Session
the_session = record { slot_id = sweden; expires_at = 700 }

abbrev bound_pool : Pool
bound_pool = record the_pool { sessions = (codes "s", the_session) ∷ [] }

abbrev sweden_slot : SlotState
sweden_slot = a_slot (a_spec sweden (codes "se")) sweden_ip

abbrev fourth : Picked
unfolding pick
fourth = got (pick sticky_policy example_com 200 0 bound_pool).1 nothing

session_answers : (pick sticky_policy example_com 200 0 bound_pool).1 ≡ ok fourth
unfolding pick lookup retain map_values eligible ready delete bytes_beq insert
session_answers = refl

session_bound : lookup sticky_policy.session (expire 200 bound_pool).sessions ≡ some the_session
unfolding expire lookup retain bytes_beq
session_bound = refl

sweden_found : find_slot the_session.slot_id (expire 200 bound_pool).slots ≡ some sweden_slot
unfolding expire bytes_beq retain
sweden_found = refl

sweden_admitted :
    admits
      (expire 200 bound_pool)
      sweden_slot
      sticky_policy
      (scope_of sticky_policy example_com)
      200
    ≡ true
unfolding admits expire lookup retain map_values
sweden_admitted = refl

pick-sticky_example : (fourth.slot ≡ sweden_slot) × (fourth.sticky ≡ true)
pick-sticky_example =
    pick-sticky bound_pool sticky_policy example_com 200 0 fourth the_session sweden_slot (λ e. cc)
      session_bound (omega arith) sweden_found sweden_admitted session_answers

Reach-SemaphoreRun_example :
    SemaphoreRun (semaphore_of start.pool) (grant ∷ reserve ∷ []) (semaphore_of leased_once.pool)
unfolding to_leased_once
Reach-SemaphoreRun_example = Reach-SemaphoreRun start-IsIdle to_leased_once

candidates-filter_example :
    (candidates the_pool the_policy example_com 200 the_pool.ip_cooldowns the_pool.slots).0
    ≡ filter (λ s. admits the_pool s the_policy example_com 200) the_pool.slots
candidates-filter_example =
    candidates-filter the_pool the_policy example_com 200 the_pool.ip_cooldowns the_pool.slots
      (λ t a. refl)
