-- ===== src/Proxy/Codes.antt =====
-- What a client is told of a failure: replyCodeFor in internal/proxy/proxy.go, statusCodeFor in http.go,
-- requestResult and upstreamResult in metrics.go. What the code reads of an error that is not the
-- pool's (a deadline, the text "refused") is an argument.
use global_egress.Shared.{
  ℕ, ◌≡◌, ◌⊎◌, Bool, true, false, ◌||◌, Option, none, some, if◌then◌else◌, arith,
}
use global_egress.Pool.State.{
  Error, no_candidate, exhausted, capacity, tunnel_budget, busy, batch_full, policy_limit,
  session_full, exhausted_after,
}
use global_egress.Proxy.Upstream.{Failure, from_pool}

-- The sentinel errors that the code asks for.
pub data Sentinel : Type 0 where
  is_no_candidate is_exhausted is_capacity is_tunnel_budget is_busy is_batch_full is_policy
        is_session_full :
      Sentinel

abbrev is_sentinel : Sentinel → Error → Bool
is_sentinel is_no_candidate no_candidate = true
is_sentinel is_exhausted exhausted = true
is_sentinel is_exhausted (exhausted_after e) = true
is_sentinel is_capacity capacity = true
is_sentinel is_tunnel_budget tunnel_budget = true
is_sentinel is_busy busy = true
is_sentinel is_batch_full batch_full = true
is_sentinel is_policy policy_limit = true
is_sentinel is_session_full session_full = true
is_sentinel s e = false

-- errors.Is: the error or one that it wraps.
unfoldable pub wraps : Sentinel → Error → Bool
wraps s (exhausted_after e) = let inner = wraps s e in is_sentinel s (exhausted_after e) || inner
wraps s e = is_sentinel s e

unfoldable pub errors_is : Sentinel → Failure → Bool
unfolding wraps
errors_is s (from_pool e) = wraps s e
errors_is s f = false

pub data RequestResult : Type 0 where
  request_success request_no_candidate request_busy request_dial_failure request_timeout :
      RequestResult
  request_upstream_failure : RequestResult

module _ (is_deadline is_canceled is_refused : Failure → Bool) where
  -- replyCodeFor
  unfoldable pub reply_code_for : Option Failure → ℕ
  unfolding errors_is
  reply_code_for none = 0x00
  reply_code_for (some f) =
      if errors_is is_policy f
      then 0x02
      else if errors_is is_no_candidate f
          || errors_is is_capacity f
          || errors_is is_tunnel_budget f
          || errors_is is_busy f
      then 0x02
      else if errors_is is_batch_full f || errors_is is_session_full f
      then 0x01
      else if errors_is is_exhausted f
      then 0x04
      else if is_deadline f
      then 0x04
      else if is_refused f
      then 0x05
      else 0x01

  -- statusCodeFor
  unfoldable pub status_code_for : Failure → ℕ
  unfolding errors_is
  status_code_for f =
      if errors_is is_policy f
      then 400
      else if errors_is is_batch_full f
      then 503
      else if errors_is is_no_candidate f
      then 409
      else if errors_is is_busy f || errors_is is_session_full f
      then 503
      else if errors_is is_capacity f || errors_is is_tunnel_budget f
      then 503
      else if errors_is is_exhausted f
      then 502
      else if is_deadline f
      then 504
      else 502

  -- requestResult
  unfoldable pub request_result : Option Failure → RequestResult
  unfolding errors_is
  request_result none = request_success
  request_result (some f) =
      if is_deadline f || is_canceled f
      then request_timeout
      else if errors_is is_busy f || errors_is is_tunnel_budget f
      then request_busy
      else if errors_is is_no_candidate f || errors_is is_exhausted f
      then request_no_candidate
      else request_dial_failure

  -- upstreamResult
  unfoldable pub upstream_result : Failure → RequestResult
  upstream_result f =
      if is_deadline f || is_canceled f then request_timeout else request_upstream_failure

-- The two answers for a pool error, with the sentinels that it wraps.
module _
    (policy candidate capacity budget busy batch session exhausted deadline refused : Bool) where
  abbrev reply : ℕ
  reply =
      if policy
      then 0x02
      else if candidate || capacity || budget || busy
      then 0x02
      else if batch || session
      then 0x01
      else if exhausted
      then 0x04
      else if deadline
      then 0x04
      else if refused
      then 0x05
      else 0x01

  abbrev status : ℕ
  status =
      if policy
      then 400
      else if batch
      then 503
      else if candidate
      then 409
      else if busy || session
      then 503
      else if capacity || budget
      then 503
      else if exhausted
      then 502
      else if deadline
      then 504
      else 502

  reply-status : (status ≡ 400) ⊎ (status ≡ 409) → reply ≡ 0x02
  reply-status = ground arith

  status-reply : reply ≡ 0x02 → (status ≡ 400) ⊎ (status ≡ 409) ⊎ (status ≡ 503)
  status-reply = ground arith

-- The two tables on one and the same failure to connect: if statusCodeFor maps it to 400 (the policy
-- exceeds a limit) or 409 (no egress matches it), then replyCodeFor maps it to "not allowed"; and if
-- replyCodeFor maps it to "not allowed", then statusCodeFor maps it to 400, 409 or 503, never to a
-- gateway's error. The answers that the front ends give without these functions are not meant.
pub reply_code_for-status_code_for :
    (is_deadline is_canceled is_refused : Failure → Bool) (f : Failure)
    → let reply_code = reply_code_for is_deadline is_canceled is_refused (some f) in
      let status_code = status_code_for is_deadline is_canceled is_refused f in
      ((status_code ≡ 400) ⊎ (status_code ≡ 409) → reply_code ≡ 0x02)
      × (reply_code ≡ 0x02 → (status_code ≡ 400) ⊎ (status_code ≡ 409) ⊎ (status_code ≡ 503))
unfolding reply_code_for status_code_for
reply_code_for-status_code_for is_deadline is_canceled is_refused f = (
  reply-status (errors_is is_policy f) (errors_is is_no_candidate f) (errors_is is_capacity f)
      (errors_is is_tunnel_budget f) (errors_is is_busy f) (errors_is is_batch_full f)
      (errors_is is_session_full f) (errors_is is_exhausted f) (is_deadline f) (is_refused f),
  status-reply (errors_is is_policy f) (errors_is is_no_candidate f) (errors_is is_capacity f)
      (errors_is is_tunnel_budget f) (errors_is is_busy f) (errors_is is_batch_full f)
      (errors_is is_session_full f) (errors_is is_exhausted f) (is_deadline f) (is_refused f),
)
