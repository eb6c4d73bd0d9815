-- ===== src/Examples/Handlers.antt =====
-- Whole requests at concrete values.
use global_egress.Shared.{
  ◌≤◌, ◌≡◌, refl, true, false, [], ◌∷◌, ◌++◌, none, some, Bytes, codes, ok, arith, Option, List,
}
use global_egress.Pool.Acquire.Balance.{Counts}
use global_egress.Socks.Conn.{Conn}
use global_egress.Socks.RoundTrip.{sent_by, talk}
use global_egress.Proxy.Relay.{clean, Turn, copy_with_idle}
use global_egress.Proxy.Relay.Sums.{read_in, played, written_in, ending_of, copy_with_idle-played}
use global_egress.Proxy.Handle.{Wire, handle}
use global_egress.Proxy.Handle.Settled.{handle-Counts}
use global_egress.Proxy.Http.{Exchange, Request, hijacked, serve_http}
use global_egress.Proxy.Http.Settled.{serve_http-Counts}
use global_egress.Examples.Data.{example_com}
use global_egress.Examples.Connections.{
  the_credentials, accepts, dotted, bound_here, an_attempt, an_attempt-IsQuiet, a_try, a_try-IsCalm,
  the_guard, no_addr, no_split, never, any_policy, tunnel_pool, no_failure,
}

-- Two reads, the second of which ends the stream.
abbrev some_turns : List Turn
some_turns =
    record { read = 100; read_error = none; written = 100; write_error = false }
    ∷ record { read = 20; read_error = some true; written = 20; write_error = false }
    ∷ []

copy_with_idle-played_example :
    let (count, ending) = copy_with_idle (λ ts. (0, clean)) 120 some_turns in
    (count ≡ written_in (played some_turns))
    × (count ≤ read_in (played some_turns))
    × (ending ≡ clean → count ≡ read_in (played some_turns))
    × (ending ≡ ending_of (played some_turns))
copy_with_idle-played_example =
    copy_with_idle-played (λ ts. (0, clean)) 120 some_turns (omega arith)
      (
        record { at_most = omega arith; all_or_error = λ e. refl },
        (record { at_most = omega arith; all_or_error = λ e. refl }, tt),
      )

abbrev the_wire : Wire
the_wire = record {
  tries = a_try;
  bound = λ l. bound_here;
  io_copy = λ ts. (0, clean);
  idle_timeout = 120;
  upload = some_turns;
  download = some_turns;
  meanwhile = λ p. p;
  ends_at = 900;
}

abbrev the_client : Conn
the_client = talk (sent_by the_credentials none example_com 443 ++ codes "hello") [] 3

handle-Counts_example :
    Counts tunnel_pool
      (handle no_addr no_split dotted never no_failure no_failure no_failure true accepts the_guard
        2 the_wire the_client tunnel_pool).1
      0
      0
handle-Counts_example =
    handle-Counts no_addr no_split dotted never no_failure no_failure no_failure true accepts
      the_guard 2 the_wire the_client tunnel_pool
      (record {
        tries = a_try-IsCalm;
        meanwhile = λ p. record { leased = omega arith; waiting = omega arith };
      })

abbrev the_exchange : Exchange
the_exchange = record {
  tries = a_try;
  attempts = an_attempt;
  dial = λ l p. (p, ok none);
  hijack = hijacked;
  established = true;
  pipelined = 5;
  pipeline_failed = false;
  io_copy = λ ts. (0, clean);
  idle_timeout = 120;
  upload = some_turns;
  download = some_turns;
  respond = (0, some (200, 10));
  meanwhile = λ p. p;
  ends_at = 900;
}

abbrev unsplit : Bytes → Option (Bytes × Bytes)
unsplit text = none

abbrev a_request : Request
a_request = record {
  connect = true;
  host = example_com;
  absolute = false;
  scheme = [];
  url_host = [];
}

serve_http-Counts_example :
    Counts tunnel_pool
      (serve_http no_addr unsplit never no_failure no_failure no_failure true
        (ok any_policy)
        the_guard
        2
        the_exchange
        a_request
        tunnel_pool).0
      0
      0
serve_http-Counts_example =
    serve_http-Counts no_addr unsplit never no_failure no_failure no_failure true (ok any_policy)
      the_guard 2 the_exchange a_request tunnel_pool
      (record {
        tries = a_try-IsCalm;
        attempts = an_attempt-IsQuiet;
        dial = λ l p. record { leased = omega arith; waiting = omega arith };
        meanwhile = λ p. record { leased = omega arith; waiting = omega arith };
      })
