-- ===== src/Examples/Connections.antt =====
-- Handshakes and connections at concrete values.
use global_egress.Shared.{
  ◌⊎◌, Bool, zero, suc, ◌+◌, ◌<◌, ◌≡◌, refl, true, false, [], ◌∷◌, ◌++◌, none, some, Bytes, codes,
  Result, ok, err, arith, Option, Addr, zero_addr, ℕ, map, retain, map_values, delete, lookup,
}
use global_egress.Policy.{Policy}
use global_egress.Netguard.{Guard, check_port, check_host, check_resolved}
use global_egress.Pool.State.{Pool, Error, dial_failed}
use global_egress.Pool.Pick.{pick}
use global_egress.Pool.Eligible.{eligible, ready}
use global_egress.Pool.Acquire.{
  Attempt, Lease, acquire, commit, lease_of, acquire_loop, first_attempts,
}
use global_egress.Pool.Acquire.Balance.{Acquires, IsQuiet, acquire-Acquires}
use global_egress.Socks.Server.{Bound, bound4}
use global_egress.Socks.Client.{Ip, Credentials, dial_negotiate}
use global_egress.Socks.Conn.{unauthorized, SocksError}
use global_egress.Socks.RoundTrip.{serve, sent_by, answered, talk, serve-dial_negotiate}
use global_egress.Pool.State.{Spec, exhausted_after, busy}
use global_egress.Pool.Acquire.{release_lease}
use global_egress.Pool.Entries.{note_dial_failure}
use global_egress.Proxy.Upstream.{
  abandon, Failure, from_pool, Try, connect_upstream, connect_loop, first_tries, checked_dial,
}
use global_egress.Proxy.Upstream.Guarded.{Passed, connect_upstream-Passed}
use global_egress.Proxy.Upstream.Leases.{IsCalm, Holds, connect_upstream-Holds}
use global_egress.Proxy.Codes.{reply_code_for, status_code_for, reply_code_for-status_code_for}
use global_egress.Proxy.Headers.{write_connect_established, egress_headers}
use global_egress.Proxy.Headers.Splitting.{
  lines, ended_line, written, write_connect_established-lines,
}
use global_egress.Pool.State.{SlotState, wire_guard}
use global_egress.Examples.Data.{a_slot, japan, sweden, a_spec, the_pool, the_policy, example_com}

-- A client asks a server for a name.
abbrev pub the_credentials : Credentials
the_credentials = record { username = codes "cc=jp"; password = codes "x" }

abbrev pub accepts : Bytes → Bytes → Bool → Result SocksError Policy
accepts username password true = ok the_policy
accepts username password false = err unauthorized

abbrev no_ip : Bytes → Option Ip
no_ip host = none

abbrev pub dotted : Bytes → Bytes
dotted ip = codes "192.0.2.1"

abbrev pub bound_here : Bound
bound_here = bound4 (127 ∷ 0 ∷ 0 ∷ 1 ∷ []) 1080

serve-dial_negotiate_example :
    (serve accepts dotted bound_here
        (talk (sent_by the_credentials none example_com 443 ++ codes "hello") [] 3)
      ≡ (talk (codes "hello") (answered bound_here) 0, ok (the_policy, example_com, 443)))
    × (dial_negotiate no_ip the_credentials example_com 443
          (talk (answered bound_here ++ codes "welcome") [] 3)
        ≡ (talk (codes "welcome") (sent_by the_credentials none example_com 443) 0, ok tt))
serve-dial_negotiate_example =
    serve-dial_negotiate accepts dotted no_ip the_credentials the_policy bound_here example_com 443
      (codes "hello") (codes "welcome") refl refl tt refl (λ e. cc) (omega arith) (omega arith)
      (omega arith)

-- The dialer of every slot comes up, and the dial through the first lease is refused.
abbrev pub an_attempt : ℕ → Attempt
an_attempt k = record {
  at = 200 + k;
  draw = 0;
  ensure_dialer = λ id p. (p, ok []);
  settled_at = 210 + k;
}

pub an_attempt-IsQuiet : (k : ℕ) → IsQuiet (an_attempt k)
an_attempt-IsQuiet k id p = record { leased = omega arith; waiting = omega arith }

acquire-Acquires_example : Acquires the_pool (acquire an_attempt the_policy example_com the_pool)
acquire-Acquires_example =
    acquire-Acquires an_attempt the_policy example_com the_pool an_attempt-IsQuiet

abbrev dialled : ℕ → Result Error (Option Bytes)
dialled zero = err (dial_failed 1)
dialled (suc k) = ok (some (codes "198.51.100.7:443"))

abbrev pub a_try : ℕ → Try
a_try k = record {
  done = false;
  attempts = an_attempt;
  dial = λ l p. (p, dialled k);
  noted_at = 220 + k;
  released_at = 221 + k;
}

pub a_try-IsCalm : (k : ℕ) → IsCalm (a_try k)
a_try-IsCalm k = record {
  attempts = an_attempt-IsQuiet;
  dial = λ l p. record { leased = omega arith; waiting = omega arith };
}

abbrev pub the_guard : Guard
the_guard = record { denied = []; allowed_ports = some (443 ∷ []) }

abbrev pub no_addr : Bytes → Option Addr
no_addr host = none

abbrev pub no_split : Bytes → Option Bytes
no_split text = none

abbrev pub never : Error → Bool
never e = false

connect_upstream-Holds_example :
    Holds the_pool (
      connect_upstream no_addr no_split never the_guard 2 a_try the_policy example_com 443 the_pool)
connect_upstream-Holds_example =
    connect_upstream-Holds no_addr no_split never the_guard 2 a_try the_policy example_com 443
      the_pool a_try-IsCalm

-- Through a tunnel the peer of the second dial is the destination.
abbrev tunnel_slot : Bytes → Bytes → SlotState
tunnel_slot id country =
    let s = a_slot (a_spec id country) zero_addr in
    record s { spec = record (a_spec id country) { kind = wire_guard } }

abbrev pub tunnel_pool : Pool
tunnel_pool = record the_pool {
  slots = tunnel_slot japan (codes "jp") ∷ tunnel_slot sweden (codes "se") ∷ [];
}

abbrev pub any_policy : Policy
any_policy = record the_policy { unique_batch = [] }

abbrev connection : Pool × Result Failure Lease
connection =
    connect_upstream no_addr no_split never the_guard 2 a_try any_policy example_com 443 tunnel_pool

abbrev no_lease : Lease
no_lease = record {
  slot = [];
  entry = [];
  chained = true;
  public_ip = zero_addr;
  session = [];
  released = false;
}

abbrev the_lease : Lease
unfolding connect_upstream
the_lease = elim connection.1 [ ok l ↦ l | err e ↦ no_lease ]

the_connection : connection.1 ≡ ok the_lease
unfolding connect_upstream connect_loop acquire acquire_loop first_attempts first_tries checked_dial
    pick lookup retain map_values eligible ready delete check_port check_host abandon release_lease
    lease_of note_dial_failure commit check_resolved
the_connection = refl

connect_upstream-Passed_example :
    (check_port the_guard 443 ≡ ok tt)
    × (check_host no_addr the_guard example_com ≡ ok tt)
    × (the_lease.chained ≡ false
        → (k : ℕ) × (k < 2) × Passed no_addr no_split never the_guard the_lease (a_try k))
connect_upstream-Passed_example =
    connect_upstream-Passed no_addr no_split never the_guard 2 a_try any_policy example_com 443
      tunnel_pool the_lease the_connection

abbrev pub no_failure : Failure → Bool
no_failure f = false

abbrev full : Failure
full = from_pool (exhausted_after busy)

reply_code_for-status_code_for_example :
    let reply_code = reply_code_for no_failure no_failure no_failure (some full) in
    let status_code = status_code_for no_failure no_failure no_failure full in
    ((status_code ≡ 400) ⊎ (status_code ≡ 409) → reply_code ≡ 0x02)
    × (reply_code ≡ 0x02 → (status_code ≡ 400) ⊎ (status_code ≡ 409) ⊎ (status_code ≡ 503))
reply_code_for-status_code_for_example =
    reply_code_for-status_code_for no_failure no_failure no_failure full

-- The city of the catalogue holds a line break and a header of its own.
abbrev a_text : ℕ → Bytes
a_text n = codes "1"

abbrev an_address : Addr → Bytes
an_address a = codes "192.0.2.1"

abbrev bad_city : Spec
bad_city = record (a_spec japan (codes "jp")) {
  city = codes "x" ++ (13 ∷ 10 ∷ codes "Set-Cookie: y");
}

write_connect_established-lines_example :
    lines (write_connect_established a_text an_address a_text bad_city no_lease the_policy)
    ≡ (codes "HTTP/1.1 200 Connection Established" ++ (13 ∷ []))
      ∷ (map ended_line
            (written (egress_headers a_text an_address a_text bad_city no_lease the_policy))
          ++ ((13 ∷ []) ∷ [] ∷ []))
write_connect_established-lines_example =
    write_connect_established-lines a_text an_address a_text bad_city no_lease the_policy
