-- ===== src/Proxy/Http/Settled.antt =====
-- An HTTP request gives back what it took.
use global_egress.Shared.{
  ℕ, ◌+◌, ◌≡◌, refl, Bool, true, false, Option, none, some, Bytes, Addr, Result, ok, err, arith,
  Bool-cases, inl, inr,
}
use global_egress.Policy.{Policy}
use global_egress.Netguard.{Guard, GuardError, check_port, check_host}
use global_egress.Pool.State.{Pool, Error}
use global_egress.Pool.Acquire.{Lease, acquire}
use global_egress.Pool.Acquire.Balance.{Counts, IsQuiet, Acquires, acquire-Acquires}
use global_egress.Pool.Entries.{record_traffic}
use global_egress.Socks.Conn.{SocksError}
use global_egress.Proxy.Upstream.{Failure, checked_dial}
use global_egress.Proxy.Upstream.Leases.{IsCalm, Holds, connect_upstream-Holds}
use global_egress.Proxy.Handle.Settled.{record_traffic-Counts, release-Counts}
use global_egress.Proxy.Relay.{relay}
use global_egress.Proxy.Http.{
  Exchange, Answer, Request, Hijack, unsupported, hijack_failed, hijacked, split_target_host_port,
  split_host, tunnelled, serve_tunnel, handle_connect, round_trip, serve_forward, handle_forward,
  serve_http, forward_scheme_supported, forward_default_port,
}

-- Nothing but the request itself touches the counters.
pub record IsApart (x : Exchange) : Type 0 where
  pub tries : (k : ℕ) → IsCalm (x.tries k)
  pub attempts : (k : ℕ) → IsQuiet (x.attempts k)
  pub dial : (l : Lease) (p : Pool) → Counts p (x.dial l p).0 0 0
  pub meanwhile : (p : Pool) → Counts p (x.meanwhile p) 0 0

Same : Pool → Pool → Type 0
Same p q = Counts p q 0 0

unchanged : (p : Pool) → Same p p
unfolding Same
unchanged p = record { leased = omega arith; waiting = omega arith }

Same-then : (p q r : Pool) → Same p q → Same q r → Same p r
unfolding Same
Same-then p q r c d = record {
  leased = omega (arith, c.leased, d.leased);
  waiting = omega (arith, c.waiting, d.waiting);
}

taken : (p q r : Pool) → Counts p q 1 0 → Same q r → Counts p r 1 0
unfolding Same
taken p q r c d = record {
  leased = omega (arith, c.leased, d.leased);
  waiting = omega (arith, c.waiting, d.waiting);
}

tunnelled-Same :
    (x : Exchange) (pol : Policy) (l : Lease) (p : Pool)
    → IsApart x
    → Same p (tunnelled x pol l p).0
unfolding tunnelled Same
tunnelled-Same x pol l p apart = by_hijack x.hijack refl
  where
    counted : (sent received : ℕ) → Same p (record_traffic l sent received (x.meanwhile p))
    counted sent received =
        Same-then p (x.meanwhile p) _ (apart.meanwhile p)
          (record_traffic-Counts l sent received (x.meanwhile p))

    by_hijack : (h : Hijack) → x.hijack ≡ h → Same p (tunnelled x pol l p).0
    by_hijack unsupported h = rw (h, tunnelled) (unchanged p)
    by_hijack hijack_failed h = rw (h, tunnelled) (unchanged p)
    by_hijack hijacked h = elim (Bool-cases x.established) [
      | inr lost ↦ rw (h, lost, tunnelled) (unchanged p)
      | inl told ↦ elim (Bool-cases x.pipeline_failed) [
        | inl cut ↦ rw (h, told, cut, tunnelled) (counted x.pipelined 0)
        | inr whole ↦
            rw (h, told, whole, tunnelled)
              (counted ((relay x.io_copy x.idle_timeout x.upload x.download).0 + x.pipelined)
                (relay x.io_copy x.idle_timeout x.upload x.download).1)
      ]
    ]

module _ (parse_addr : Bytes → Option Addr) (split : Bytes → Option (Bytes × Bytes))
    (at_destination : Error → Bool) (is_deadline is_canceled is_refused : Failure → Bool) where
  serve_tunnel-Same :
      (x : Exchange) (pol : Policy) (p : Pool) (out : Pool × Result Failure Lease)
      → IsApart x
      → Holds p out
      → Same p
          (serve_tunnel parse_addr split at_destination is_deadline is_canceled is_refused x pol
            out).0
  unfolding serve_tunnel Same
  serve_tunnel-Same x pol p (q, err f) apart holds = holds
  serve_tunnel-Same x pol p (q, ok l) apart (took, held) =
      release-Counts l x.ends_at p _ held (taken p q _ took (tunnelled-Same x pol l q apart))

  abbrev tunnelled_to : Guard → ℕ → Exchange → Policy → Bytes → Pool → Pool × Answer
  tunnelled_to = handle_connect parse_addr split at_destination is_deadline is_canceled is_refused

  handle_connect-Same :
      (g : Guard) (dial_attempts : ℕ) (x : Exchange) (pol : Policy) (target : Bytes) (p : Pool)
      → IsApart x
      → Same p (tunnelled_to g dial_attempts x pol target p).0
  unfolding handle_connect
  handle_connect-Same g dial_attempts x pol target p apart =
      by_target (split_target_host_port split target 443) refl
    where
      by_target :
          (o : Option (Bytes × ℕ))
          → split_target_host_port split target 443 ≡ o
          → Same p (tunnelled_to g dial_attempts x pol target p).0
      by_target none e = rw (e, handle_connect) (unchanged p)
      by_target (some (host, port)) e =
          rw (e, handle_connect)
            (serve_tunnel-Same x pol p _ apart (
              connect_upstream-Holds parse_addr (split_host split) at_destination g dial_attempts
                x.tries pol host port p apart.tries))

  abbrev exchanged : Guard → Exchange → Lease → Pool → Pool × Answer
  exchanged = round_trip parse_addr split at_destination is_deadline is_canceled is_refused

  round_trip-Same :
      (g : Guard) (x : Exchange) (l : Lease) (p : Pool) → IsApart x → Same p (exchanged g x l p).0
  unfolding round_trip Same
  round_trip-Same g x l p apart =
      by_dial (checked_dial parse_addr (split_host split) at_destination g l (x.dial l p).1) refl
    where
      later : Same p (x.meanwhile (x.dial l p).0)
      later = Same-then p (x.dial l p).0 _ (apart.dial l p) (apart.meanwhile (x.dial l p).0)

      by_response :
          checked_dial parse_addr (split_host split) at_destination g l (x.dial l p).1 ≡ ok tt
          → (o : Option (ℕ × ℕ)) → x.respond.1 ≡ o
          → Same p (exchanged g x l p).0
      by_response e none h = rw (e, h, round_trip) later
      by_response e (some (code, written)) h =
          rw (e, h, round_trip)
            (Same-then p (x.meanwhile (x.dial l p).0) _ later
              (record_traffic-Counts l x.respond.0 written (x.meanwhile (x.dial l p).0)))

      by_dial :
          (r : Result Failure (Unit {0}))
          → checked_dial parse_addr (split_host split) at_destination g l (x.dial l p).1 ≡ r
          → Same p (exchanged g x l p).0
      by_dial (err f) e = rw (e, round_trip) (apart.dial l p)
      by_dial (ok u) e = by_response e x.respond.1 refl

  serve_forward-Same :
      (g : Guard) (x : Exchange) (p : Pool) (out : Pool × Result Error Lease)
      → IsApart x
      → Acquires p out
      → Same p
          (serve_forward parse_addr split at_destination is_deadline is_canceled is_refused g x
            out).0
  unfolding serve_forward Same
  serve_forward-Same g x p (q, err e) apart got = got
  serve_forward-Same g x p (q, ok l) apart (took, held) =
      release-Counts l x.ends_at p _ held (taken p q _ took (round_trip-Same g x l q apart))

  abbrev forwarded : Guard → Exchange → Policy → Bytes → Bytes → Pool → Pool × Answer
  forwarded = handle_forward parse_addr split at_destination is_deadline is_canceled is_refused

  handle_forward-Same :
      (g : Guard) (x : Exchange) (pol : Policy) (scheme url_host : Bytes) (p : Pool)
      → IsApart x
      → Same p (forwarded g x pol scheme url_host p).0
  unfolding handle_forward
  handle_forward-Same g x pol scheme url_host p apart =
      elim (Bool-cases (forward_scheme_supported scheme)) [
        | inr other ↦ rw (other, handle_forward) (unchanged p)
        | inl web ↦
            by_target web (split_target_host_port split url_host (forward_default_port scheme)) refl
      ]
    where
      target : Option (Bytes × ℕ)
      target = split_target_host_port split url_host (forward_default_port scheme)

      by_guard :
          forward_scheme_supported scheme ≡ true
          → (host : Bytes) (port : ℕ) → target ≡ some (host, port)
          → (a : Result GuardError (Unit {0})) → check_port g port ≡ a
          → (b : Result GuardError (Unit {0})) → check_host parse_addr g host ≡ b
          → Same p (forwarded g x pol scheme url_host p).0
      by_guard web host port e (err y) ea b eb = rw (web, e, ea, handle_forward) (unchanged p)
      by_guard web host port e (ok u) ea (err y) eb =
          rw (web, e, ea, eb, handle_forward) (unchanged p)
      by_guard web host port e (ok u) ea (ok v) eb =
          rw (web, e, ea, eb, handle_forward)
            (serve_forward-Same g x p (acquire x.attempts pol host p) apart
              (acquire-Acquires x.attempts pol host p apart.attempts))

      by_target :
          forward_scheme_supported scheme ≡ true
          → (o : Option (Bytes × ℕ)) → target ≡ o
          → Same p (forwarded g x pol scheme url_host p).0
      by_target web none e = rw (web, e, handle_forward) (unchanged p)
      by_target web (some (host, port)) e =
          by_guard web host port e (check_port g port) refl (check_host parse_addr g host) refl

  -- When no other request comes in between, an HTTP request leaves the counters of the pool as it found
  -- them, whatever it asks for and however it is answered: refused, not connected, not hijacked, cut
  -- off, failed by the origin, or served. No lease and no reservation is left behind.
  pub serve_http-Counts :
      (client_allowed : Bool) (authorized : Result SocksError Policy) (g : Guard)
      (dial_attempts : ℕ) (x : Exchange) (r : Request) (p : Pool)
      → IsApart x
      → Counts p
          (serve_http parse_addr split at_destination is_deadline is_canceled is_refused
            client_allowed authorized g dial_attempts x r p).0
          0
          0
  unfolding serve_http Same
  serve_http-Counts false authorized g dial_attempts x r p apart = unchanged p
  serve_http-Counts true (err e) g dial_attempts x r p apart = unchanged p
  serve_http-Counts true (ok pol) g dial_attempts x r p apart = elim (Bool-cases r.connect) [
    | inl connects ↦ rw connects (handle_connect-Same g dial_attempts x pol r.host p apart)
    | inr gets ↦ elim (Bool-cases r.absolute) [
      | inl absolute ↦ rw (gets, absolute) (handle_forward-Same g x pol r.scheme r.url_host p apart)
      | inr relative ↦ rw (gets, relative) (unchanged p)
    ]
  ]
