-- ===== src/Proxy/Handle.antt =====
-- SOCKS5Server.handle in internal/proxy/socks5.go, and HTTPServer.handleConnect in http.go: a client from
-- its first byte to the release of its lease. Logging and the request metrics are left out.
pub mod Settled
use global_egress.Shared.{
  ℕ, ◌+◌, Bool, true, false, not, ◌&&◌, ◌||◌, List, [], ◌∷◌, Option, none, some, Bytes, Addr,
  if◌then◌else◌, Result, ok, err,
}
use global_egress.Policy.{Policy}
use global_egress.Netguard.{Guard}
use global_egress.Pool.State.{Pool, Error}
use global_egress.Pool.Acquire.{Lease, release_lease}
use global_egress.Pool.Entries.{record_traffic}
use global_egress.Socks.Conn.{SocksError, Conn, write, try_write}
use global_egress.Socks.Server.{
  Authorize, Bound, unknown_bound, negotiate, reply_bytes, write_reply, read_request,
}
use global_egress.Proxy.Upstream.{Failure, Try, connect_upstream}
use global_egress.Proxy.Codes.{reply_code_for}
use global_egress.Proxy.Relay.{Ending, Turn, relay}

-- What the network and the other requests do with one request: the attempts to connect, the address
-- that the connection is bound to, io.Copy, the idle timeout, the turns of the two directions, what happens to the pool while they
-- run, and the time at which the lease is released.
pub record Wire : Type 0 where
  pub tries : ℕ → Try
  pub bound : Lease → Bound
  pub io_copy : List Turn → ℕ × Ending
  pub idle_timeout : ℕ
  pub upload : List Turn
  pub download : List Turn
  pub meanwhile : Pool → Pool
  pub ends_at : ℕ

-- How a request ends, with the lease that it was served through.
pub data RequestEnd : Type 0 where
  client_denied : RequestEnd
  refused : SocksError → RequestEnd
  failed : Failure → RequestEnd
  unanswered : Lease → RequestEnd
  finished : Policy → Lease → RequestEnd

-- The session of a lease, and the deferred release.
unfoldable pub run_session : Wire → Lease → Pool → Pool
unfolding relay record_traffic release_lease
run_session wire l p =
    let (sent, received) = relay wire.io_copy wire.idle_timeout wire.upload wire.download in
    (release_lease l wire.ends_at (record_traffic l sent received (wire.meanwhile p))).0

module _ (parse_addr : Bytes → Option Addr) (split_host_port : Bytes → Option Bytes)
    (ip_string : Bytes → Bytes) (at_destination : Error → Bool)
    (is_deadline is_canceled is_refused : Failure → Bool) where
  -- From the connection that connectUpstream returned.
  unfoldable pub serve_lease :
      Wire → Policy → Conn → Pool × Result Failure Lease → Conn × Pool × RequestEnd
  serve_lease wire pol c (p, err f) =
      let code = reply_code_for is_deadline is_canceled is_refused (some f) in
      ((try_write (reply_bytes code unknown_bound) c).0, p, failed f)
  serve_lease wire pol c (p, ok l) =
      let (c', answered) = write_reply 0 (wire.bound l) c in
      elim answered [
        | err e ↦ (c', (release_lease l wire.ends_at p).0, unanswered l)
        | ok u ↦ (c', run_session wire l p, finished pol l)
      ]

  -- handle, once the client is admitted.
  unfoldable pub handle_request :
      Authorize → Guard → ℕ → Wire → Conn → Pool → Conn × Pool × RequestEnd
  handle_request authorize g dial_attempts wire c p =
      let (c', negotiated) = negotiate authorize c in
      elim negotiated [
        | err e ↦ (c', p, refused e)
        | ok pol ↦
            let (c'', request) = read_request ip_string c' in
            elim request [
              | err e ↦ (c'', p, refused e)
              | ok (host, port) ↦ serve_lease wire pol c'' (
                  connect_upstream parse_addr split_host_port at_destination g dial_attempts
                    wire.tries pol host port p)
            ]
      ]

  -- SOCKS5Server.handle, with the answer of checkClient.
  unfoldable pub handle :
      Bool → Authorize → Guard → ℕ → Wire → Conn → Pool → Conn × Pool × RequestEnd
  unfolding handle_request
  handle client_allowed authorize g dial_attempts wire c p =
      if client_allowed
      then handle_request authorize g dial_attempts wire c p
      else (c, p, client_denied)
