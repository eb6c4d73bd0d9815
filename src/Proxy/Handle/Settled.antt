-- ===== src/Proxy/Handle/Settled.antt =====
-- Every request gives back what it took.
use global_egress.Shared.{
  ℕ, ◌≡◌, refl, sym, subst, Bool, true, false, ◌&&◌, Option, Bytes, Addr, Result, ok, err, arith,
  nat_eq, ◌==◌, is_empty, Bool-cases, inl, inr,
}
use global_egress.Policy.{Policy}
use global_egress.Netguard.{Guard}
use global_egress.Pool.State.{Pool, Error}
use global_egress.Pool.Acquire.{Lease, release_lease}
use global_egress.Pool.Acquire.Balance.{Counts}
use global_egress.Pool.Entries.{record_traffic}
use global_egress.Pool.System.Tally.{release_lease-Ends}
use global_egress.Socks.Conn.{SocksError, Conn}
use global_egress.Socks.Server.{Authorize, negotiate, read_request, write_reply}
use global_egress.Proxy.Upstream.{Failure, connect_upstream}
use global_egress.Proxy.Upstream.Leases.{IsCalm, Holds, connect_upstream-Holds}
use global_egress.Proxy.Relay.{relay}
use global_egress.Proxy.Handle.{Wire, RequestEnd, run_session, serve_lease, handle_request, handle}

-- Nothing but the request itself touches the counters.
pub record IsAlone (wire : Wire) : Type 0 where
  pub tries : (k : ℕ) → IsCalm (wire.tries k)
  pub meanwhile : (p : Pool) → Counts p (wire.meanwhile p) 0 0

pub record_traffic-Counts :
    (l : Lease) (sent received : ℕ) (p : Pool) → Counts p (record_traffic l sent received p) 0 0
unfolding record_traffic
record_traffic-Counts l sent received p = elim (Bool-cases (sent == 0 && received == 0)) [
  | inl idle ↦ rw idle (record { leased = omega arith; waiting = omega arith })
  | inr busy ↦ rw busy (elim (Bool-cases (is_empty l.entry)) [
    | inl direct ↦ rw direct (record { leased = omega arith; waiting = omega arith })
    | inr entered ↦ rw entered (record { leased = omega arith; waiting = omega arith })
  ])
]

pub release-Counts :
    (l : Lease) (now : ℕ) (p q : Pool)
    → l.released ≡ false
    → Counts p q 1 0
    → Counts p (release_lease l now q).0 0 0
release-Counts l now p q held took =
    let e = release_lease-Ends l now q held in
    record {
      leased = omega (arith, took.leased, e.leased);
      waiting = omega (arith, took.waiting, e.pending);
    }

run_session-Counts :
    (wire : Wire) (l : Lease) (p q : Pool)
    → IsAlone wire
    → l.released ≡ false
    → Counts p q 1 0
    → Counts p (run_session wire l q) 0 0
unfolding run_session
run_session-Counts wire l p q alone held took =
    let m = alone.meanwhile q in
    let t =
      record_traffic-Counts l (relay wire.io_copy wire.idle_timeout wire.upload wire.download).0
        (relay wire.io_copy wire.idle_timeout wire.upload wire.download).1 (wire.meanwhile q) in
    release-Counts l wire.ends_at p _ held (record {
      leased = omega (arith, took.leased, m.leased, t.leased);
      waiting = omega (arith, took.waiting, m.waiting, t.waiting);
    })

module _ (parse_addr : Bytes → Option Addr) (split_host_port : Bytes → Option Bytes)
    (ip_string : Bytes → Bytes) (at_destination : Error → Bool)
    (is_deadline is_canceled is_refused : Failure → Bool) where
  abbrev served : Wire → Policy → Conn → Pool × Result Failure Lease → Conn × Pool × RequestEnd
  served =
      serve_lease parse_addr split_host_port ip_string at_destination is_deadline is_canceled
        is_refused

  serve_lease-Counts :
      (wire : Wire) (pol : Policy) (c : Conn) (p : Pool) (out : Pool × Result Failure Lease)
      → IsAlone wire
      → Holds p out
      → Counts p (served wire pol c out).1 0 0
  unfolding serve_lease
  serve_lease-Counts wire pol c p (q, err f) alone holds = holds
  serve_lease-Counts wire pol c p (q, ok l) alone (took, held) =
      answer (write_reply 0 (wire.bound l) c).1 refl
    where
      answer :
          (r : Result SocksError (Unit {0}))
          → (write_reply 0 (wire.bound l) c).1 ≡ r
          → Counts p (served wire pol c (q, ok l)).1 0 0
      answer (err e) h = rw (h, serve_lease) (release-Counts l wire.ends_at p q held took)
      answer (ok u) h = rw (h, serve_lease) (run_session-Counts wire l p q alone held took)

  module _ (authorize : Authorize) (g : Guard) (dial_attempts : ℕ) (wire : Wire) (c : Conn)
      (p : Pool) where
    abbrev handled : Conn × Pool × RequestEnd
    handled =
        handle_request parse_addr split_host_port ip_string at_destination is_deadline is_canceled
          is_refused authorize g dial_attempts wire c p

    abbrev request : Conn × Result SocksError (Bytes × ℕ)
    request = read_request ip_string (negotiate authorize c).0

    handled_unauthorized :
        (e : SocksError)
        → (negotiate authorize c).1 ≡ err e
        → handled ≡ ((negotiate authorize c).0, p, RequestEnd.refused e)
    unfolding handle_request
    handled_unauthorized e h = rw (h, handle_request) refl

    handled_unread :
        (pol : Policy) (e : SocksError)
        → (negotiate authorize c).1 ≡ ok pol
        → request.1 ≡ err e
        → handled ≡ (request.0, p, RequestEnd.refused e)
    unfolding handle_request
    handled_unread pol e h k = rw (h, k, handle_request) refl

    handled_connected :
        (pol : Policy) (host : Bytes) (port : ℕ)
        → (negotiate authorize c).1 ≡ ok pol
        → request.1 ≡ ok (host, port)
        → handled
          ≡ served wire pol request.0 (
              connect_upstream parse_addr split_host_port at_destination g dial_attempts wire.tries
                pol host port p)
    unfolding handle_request
    handled_connected pol host port h k = rw (h, k, handle_request) refl

  -- When no other request comes in between, a SOCKS5 client leaves the counters of the pool as it found
  -- them, however it ends: denied, refused in the negotiation or in the request, failed to connect,
  -- gone before the answer, or served to the end. No lease and no reservation is left behind.
  pub handle-Counts :
      (client_allowed : Bool) (authorize : Authorize) (g : Guard) (dial_attempts : ℕ) (wire : Wire)
      (c : Conn) (p : Pool)
      → IsAlone wire
      → let (_, q, _) =
          handle parse_addr split_host_port ip_string at_destination is_deadline is_canceled
            is_refused client_allowed authorize g dial_attempts wire c p in
        Counts p q 0 0
  unfolding handle
  handle-Counts false authorize g dial_attempts wire c p alone = record {
    leased = omega arith;
    waiting = omega arith;
  }
  handle-Counts true authorize g dial_attempts wire c p alone =
      negotiated (negotiate authorize c).1 refl
    where
      all : Conn × Pool × RequestEnd
      all = handled authorize g dial_attempts wire c p

      Same : Conn × Pool × RequestEnd → Type 0
      Same out = Counts p out.1 0 0

      here : Counts p p 0 0
      here = record { leased = omega arith; waiting = omega arith }

      read :
          (pol : Policy)
          → (negotiate authorize c).1 ≡ ok pol
          → (r : Result SocksError (Bytes × ℕ)) → (request authorize g dial_attempts wire c p).1 ≡ r
          → Same all
      read pol h (err e) k =
          subst Same (sym (handled_unread authorize g dial_attempts wire c p pol e h k)) here
      read pol h (ok (host, port)) k =
          subst Same (sym (handled_connected authorize g dial_attempts wire c p pol host port h k))
            (serve_lease-Counts wire pol (request authorize g dial_attempts wire c p).0 p _ alone (
              connect_upstream-Holds parse_addr split_host_port at_destination g dial_attempts
                wire.tries pol host port p alone.tries))

      negotiated : (r : Result SocksError Policy) → (negotiate authorize c).1 ≡ r → Same all
      negotiated (err e) h =
          subst Same (sym (handled_unauthorized authorize g dial_attempts wire c p e h)) here
      negotiated (ok pol) h = read pol h (request authorize g dial_attempts wire c p).1 refl
