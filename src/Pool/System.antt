-- ===== src/Pool/System.antt =====
-- The pool with the requests in flight: what the mutex of internal/pool/pool.go lets happen between
-- two requests. Each step is one critical section, and the steps come in any order. The sections that
-- follow a rollback in Acquire (noteFailure, and dropSession for a sticky slot) are steps of their own,
-- for any slot, error and session at any time, so that whatever Acquire does with them is among them.
pub mod Tally
pub mod Limits
pub mod Semaphore
use global_egress.Shared.{ℕ, ◌≡◌, List, [], ◌∷◌, ◌++◌, Bytes, Addr, Result, ok, err, true, false}
use global_egress.Policy.{Policy}
use global_egress.Pool.State.{SlotState, Pool, Reservation, Error}
use global_egress.Pool.Pick.{Picked, pick}
use global_egress.Pool.Reserve.{rollback_acquisition}
use global_egress.Pool.Acquire.{Lease, commit, lease_of, note_failure, drop_session, release_lease}
use global_egress.Pool.Feedback.{ReportInput, PreferInput, report, prefer, rotate, set_public_ip}

-- `waiting` holds what `pick` returned to the requests that wait for their dialer, `live` the leases
-- that are not released.
pub record System : Type 0 where
  pub pool : Pool
  pub waiting : List Picked
  pub live : List Lease

abbrev pub with_pool : System → Pool → System
with_pool s p = record s { pool = p }

pub data Step (s : System) : System → Type 0 where
  picks :
      (pol : Policy) (target : Bytes) (now draw : ℕ) (x : Picked)
      → (pick pol target now draw s.pool).1 ≡ ok x
      → Step s (record {
        pool = (pick pol target now draw s.pool).0;
        waiting = x ∷ s.waiting;
        live = s.live;
      })
  refuses :
      (pol : Policy) (target : Bytes) (now draw : ℕ) (e : Error)
      → (pick pol target now draw s.pool).1 ≡ err e
      → Step s (with_pool s (pick pol target now draw s.pool).0)
  commits :
      (pol : Policy) (entry : Bytes) (now : ℕ) (before after : List Picked) (x : Picked)
      → s.waiting ≡ before ++ x ∷ after
      → Step s (record {
        pool = commit pol x now s.pool;
        waiting = before ++ after;
        live = lease_of pol x entry s.pool ∷ s.live;
      })
  gives_up :
      (before after : List Picked) (x : Picked)
      → s.waiting ≡ before ++ x ∷ after
      → Step s (record {
        pool = rollback_acquisition x.reservation s.pool;
        waiting = before ++ after;
        live = s.live;
      })
  notes_failure :
      (id : Bytes) (e : Error) (now : ℕ) → Step s (with_pool s (note_failure id e now s.pool))
  drops_session : (name : Bytes) → Step s (with_pool s (drop_session name s.pool))
  releases :
      (now : ℕ) (before after : List Lease) (l : Lease)
      → s.live ≡ before ++ l ∷ after
      → Step s (record {
        pool = (release_lease l now s.pool).0;
        waiting = s.waiting;
        live = before ++ after;
      })
  reports : (r : ReportInput) (now : ℕ) → Step s (with_pool s (report r now s.pool).0)
  prefers : (r : PreferInput) (now : ℕ) → Step s (with_pool s (prefer r now s.pool).0)
  rotates : (name : Bytes) → Step s (with_pool s (rotate name s.pool).0)
  measures :
      (slot : SlotState) (ip : Addr) (at now : ℕ)
      → Step s (with_pool s (set_public_ip slot ip at now s.pool).0)

pub data Reach (s : System) : System → Type 0 where
  here : Reach s s
  next : {t u : System} → Reach s t → Step t u → Reach s u
