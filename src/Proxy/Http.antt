-- ===== src/Proxy/Http.antt =====
-- HTTPServer.ServeHTTP, handleConnect and handleForward in internal/proxy/http.go: what a request gets
-- for an answer and what it does to the pool. Logging and the request metrics are left out, and so are
-- the bodies of the messages, of which the pool only learns the sizes.
pub mod Settled
use global_egress.Shared.{
  ℕ, ◌+◌, Bool, true, false, not, ◌&&◌, ◌||◌, List, [], ◌∷◌, Option, none, some, Bytes, Addr,
  nat_eq, bytes_eq, codes, ◌==◌, bytes_beq, ltb, is_empty, if◌then◌else◌, Result, ok, err, atoi,
  leb,
}
use global_egress.Policy.{Policy}
use global_egress.Netguard.{Guard, GuardError, check_port, check_host}
use global_egress.Pool.State.{Pool, Error}
use global_egress.Pool.Acquire.{Attempt, Lease, acquire, release_lease}
use global_egress.Pool.Entries.{record_traffic}
use global_egress.Socks.Conn.{SocksError, unauthorized, policy_required}
use global_egress.Proxy.Upstream.{Failure, Try, from_pool, checked_dial, connect_upstream}
use global_egress.Proxy.Codes.{status_code_for}
use global_egress.Proxy.Relay.{Ending, Turn, relay}

abbrev is_bracket : ℕ → Bool
is_bracket c = c == b'[' || c == b']'

-- strings.Trim(value, "[]")
abbrev trim_brackets_left : Bytes → Bytes
trim_brackets_left [] = []
trim_brackets_left (c ∷ cs) =
    let rest = trim_brackets_left cs in if is_bracket c then rest else c ∷ cs

abbrev trim_brackets_right : Bytes → Bytes
trim_brackets_right [] = []
trim_brackets_right (c ∷ cs) =
    let rest = trim_brackets_right cs in if is_bracket c && is_empty rest then [] else c ∷ rest

-- splitTargetHostPort: `none` is an error.
unfoldable pub split_target_host_port :
    (Bytes → Option (Bytes × Bytes)) → Bytes → ℕ → Option (Bytes × ℕ)
unfolding atoi
split_target_host_port split value default_port =
    if is_empty value then none else elim (split value) [
      | none ↦ some (trim_brackets_right (trim_brackets_left value), default_port)
      | some (host, text) ↦ elim (atoi text) [
        | none ↦ none
        | some (negative, port) ↦
            if negative || ltb port 1 || ltb 65535 port then none else some (host, port)
      ]
    ]

-- forwardSchemeSupported
abbrev pub forward_scheme_supported : Bytes → Bool
forward_scheme_supported scheme = scheme == codes "http" || scheme == codes "https"

-- forwardDefaultPort
abbrev pub forward_default_port : Bytes → ℕ
forward_default_port scheme = if scheme == codes "https" then 443 else 80

pub data Hijack : Type 0 where
  unsupported hijack_failed hijacked : Hijack

-- What the network, io.Copy and the other requests do with one request. `pipelined` counts the bytes that the
-- client sent after CONNECT; `respond` is the size of the request's body that was read and, unless the
-- exchange failed, the status of the origin and the size of its body.
pub record Exchange : Type 0 where
  pub tries : ℕ → Try
  pub attempts : ℕ → Attempt
  pub dial : Lease → Pool → Pool × Result Error (Option Bytes)
  pub hijack : Hijack
  pub established : Bool
  pub pipelined : ℕ
  pub pipeline_failed : Bool
  pub io_copy : List Turn → ℕ × Ending
  pub idle_timeout : ℕ
  pub upload : List Turn
  pub download : List Turn
  pub respond : ℕ × Option (ℕ × ℕ)
  pub meanwhile : Pool → Pool
  pub ends_at : ℕ

-- What the client is answered.
pub data Answer : Type 0 where
  status : ℕ → Answer
  nothing : Answer
  tunnel : Policy → Lease → Answer

-- A request as net/http parses it.
pub record Request : Type 0 where
  pub connect : Bool
  pub host : Bytes
  pub absolute : Bool
  pub scheme : Bytes
  pub url_host : Bytes

abbrev pub split_host : (Bytes → Option (Bytes × Bytes)) → Bytes → Option Bytes
split_host split text = elim (split text) [ none ↦ none | some (host, port) ↦ some host ]

-- The answer and the traffic of a CONNECT that has its lease.
unfoldable pub tunnelled : Exchange → Policy → Lease → Pool → Pool × Answer
unfolding relay record_traffic
tunnelled x pol l p = elim x.hijack [
  | unsupported ↦ (p, status 500)
  | hijack_failed ↦ (p, nothing)
  | hijacked ↦
      if not x.established
      then (p, nothing)
      else if x.pipeline_failed
      then (record_traffic l x.pipelined 0 (x.meanwhile p), tunnel pol l)
      else let (sent, received) = relay x.io_copy x.idle_timeout x.upload x.download in
        (record_traffic l (sent + x.pipelined) received (x.meanwhile p), tunnel pol l)
]

-- A lease that ends with the request, whatever is answered.
abbrev pub released : Exchange → Lease → Pool × Answer → Pool × Answer
released x l (p, answer) = ((release_lease l x.ends_at p).0, answer)

-- The answer to a client that authorize refuses.
abbrev pub refusal : SocksError → Answer
refusal unauthorized = status 407
refusal policy_required = status 407
refusal e = status 400

module _ (parse_addr : Bytes → Option Addr) (split : Bytes → Option (Bytes × Bytes))
    (at_destination : Error → Bool) (is_deadline is_canceled is_refused : Failure → Bool) where
  abbrev pub denial : Failure → Answer
  denial f = status (status_code_for is_deadline is_canceled is_refused f)

  unfoldable pub serve_tunnel : Exchange → Policy → Pool × Result Failure Lease → Pool × Answer
  serve_tunnel x pol (p, err f) = (p, denial f)
  serve_tunnel x pol (p, ok l) = released x l (tunnelled x pol l p)

  -- handleConnect
  unfoldable pub handle_connect : Guard → ℕ → Exchange → Policy → Bytes → Pool → Pool × Answer
  handle_connect g dial_attempts x pol target p = elim (split_target_host_port split target 443) [
    | none ↦ (p, status 400)
    | some (host, port) ↦ serve_tunnel x pol (
        connect_upstream parse_addr (split_host split) at_destination g dial_attempts x.tries pol
          host port p)
  ]

  -- RoundTrip through the lease, and what is answered.
  unfoldable pub round_trip : Guard → Exchange → Lease → Pool → Pool × Answer
  unfolding checked_dial
  round_trip g x l p =
      let (p', dialled) = x.dial l p in
      let (uploaded, response) = x.respond in
      elim (checked_dial parse_addr (split_host split) at_destination g l dialled) [
        | err f ↦ (p', status 502)
        | ok u ↦ elim response [
          | none ↦ (x.meanwhile p', status 502)
          | some (code, written) ↦ (record_traffic l uploaded written (x.meanwhile p'), status code)
        ]
      ]

  unfoldable pub serve_forward : Guard → Exchange → Pool × Result Error Lease → Pool × Answer
  serve_forward g x (p, err e) = (p, denial (from_pool e))
  serve_forward g x (p, ok l) = released x l (round_trip g x l p)

  -- handleForward
  unfoldable pub handle_forward : Guard → Exchange → Policy → Bytes → Bytes → Pool → Pool × Answer
  handle_forward g x pol scheme url_host p =
      if not (forward_scheme_supported scheme)
      then (p, status 400)
      else elim (split_target_host_port split url_host (forward_default_port scheme)) [
        | none ↦ (p, status 400)
        | some (host, port) ↦ elim (check_port g port) [
          | err e ↦ (p, status 403)
          | ok u ↦ elim (check_host parse_addr g host) [
            | err e ↦ (p, status 403)
            | ok u ↦ serve_forward g x (acquire x.attempts pol host p)
          ]
        ]
      ]

  -- ServeHTTP, with the answers of addrFromString and checkClient in one and that of authorize.
  unfoldable pub serve_http :
      Bool → Result SocksError Policy → Guard → ℕ → Exchange → Request → Pool → Pool × Answer
  serve_http client_allowed authorized g dial_attempts x r p =
      if not client_allowed then (p, status 403) else elim authorized [
        | err e ↦ (p, refusal e)
        | ok pol ↦
            if r.connect
            then handle_connect g dial_attempts x pol r.host p
            else if not r.absolute
            then (p, status 400)
            else handle_forward g x pol r.scheme r.url_host p
      ]
