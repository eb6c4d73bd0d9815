-- ===== src/Proxy/Upstream.antt =====
-- connectUpstream and dialOnce in internal/proxy/proxy.go: a lease, a dial through it, and the next
-- slot when that fails.
pub mod Guarded
pub mod Leases
use global_egress.Shared.{
  ℕ, zero, suc, Bool, true, false, not, List, [], ◌∷◌, Option, none, some, Bytes, Addr,
  if◌then◌else◌, Result, ok, err, or_default,
}
use global_egress.Policy.{Policy}
use global_egress.Netguard.{Guard, GuardError, check_port, check_host, check_resolved}
use global_egress.Pool.State.{Pool, Error, dial_failed}
use global_egress.Pool.Acquire.{Attempt, Lease, acquire, release_lease}
use global_egress.Pool.Entries.{note_dial_failure}

pub data Failure : Type 0 where
  from_guard : GuardError → Failure
  from_pool : Error → Failure
  from_dial : Error → Failure
  context_done : Failure
  no_attempt : Failure

-- What one attempt meets: whether the client has gone, what Acquire meets, what the dial through the
-- lease returns with what other requests do meanwhile (the text of the peer's address), and the times
-- at which the failure is noted and the lease released.
pub record Try : Type 0 where
  pub done : Bool
  pub attempts : ℕ → Attempt
  pub dial : Lease → Pool → Pool × Result Error (Option Bytes)
  pub noted_at : ℕ
  pub released_at : ℕ

unfoldable pub first_tries : ℕ → (ℕ → Try) → List Try
first_tries zero try = []
first_tries (suc n) try = try zero ∷ first_tries n (λ k. try (suc k))

-- The error that a dial is blamed on: `none` for the guard's.
abbrev pub blamed : Failure → Error
blamed (from_dial e) = e
blamed (from_guard e) = dial_failed 0
blamed (from_pool e) = e
blamed context_done = dial_failed 0
blamed no_attempt = dial_failed 0

module _ (parse_addr : Bytes → Option Addr) (split_host_port : Bytes → Option Bytes)
    (at_destination : Error → Bool) (g : Guard) where
  -- dialOnce on what the dial returned.
  unfoldable pub checked_dial : Lease → Result Error (Option Bytes) → Result Failure (Unit {0})
  checked_dial l (err e) = err (from_dial e)
  checked_dial l (ok remote) =
      if l.chained then ok tt else elim (check_resolved parse_addr split_host_port g remote) [
        | ok u ↦ ok tt
        | err e ↦ err (from_guard e)
      ]

  abbrev pub refused_there : Failure → Bool
  refused_there (from_dial e) = at_destination e
  refused_there _ = false

  -- The failure is noted, and the lease released.
  unfoldable pub abandon : Try → Lease → Failure → Pool → Pool
  abandon t l f p =
      (release_lease l t.released_at
        (note_dial_failure l (blamed f) (refused_there f) t.noted_at p)).0

  -- The loop over the attempts that are left, with the error of the last one. Without any attempt the
  -- code returns no lease and no error; `applyDefaults` sees to one attempt at least.
  unfoldable pub connect_loop :
      List Try → Policy → Bytes → Option Failure → Pool → Pool × Result Failure Lease
  connect_loop [] pol host last p = (p, err (or_default last no_attempt))
  connect_loop (t ∷ ts) pol host last p =
      let (q, acquired) = acquire t.attempts pol host p in
      if t.done then (p, err context_done) else elim acquired [
        | err e ↦ (q, err (or_default last (from_pool e)))
        | ok l ↦
            let (q', dialled) = t.dial l q in
            elim (checked_dial l dialled) [
              | ok u ↦ (q', ok l)
              | err f ↦ connect_loop ts pol host (some f) (abandon t l f q')
            ]
      ]

  -- connectUpstream, with `DialAttempts` and what each attempt meets.
  unfoldable pub connect_upstream :
      ℕ → (ℕ → Try) → Policy → Bytes → ℕ → Pool → Pool × Result Failure Lease
  connect_upstream tries try pol host port p = elim (check_port g port) [
    | err e ↦ (p, err (from_guard e))
    | ok u ↦ elim (check_host parse_addr g host) [
      | err e ↦ (p, err (from_guard e))
      | ok u ↦ connect_loop (first_tries tries try) pol host none p
    ]
  ]
