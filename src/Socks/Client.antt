-- ===== src/Socks/Client.antt =====
-- internal/socksdial/socksdial.go: the client that asks a relay's proxy for a destination.
use global_egress.Shared.{
  ℕ, ◌+◌, Bool, not, ◌||◌, ◌&&◌, [], ◌∷◌, ◌++◌, Option, none, some, Bytes, nat_eq, ◌==◌,
  if◌then◌else◌, is_empty, length, leb, ltb, Result, ok, err,
}
use global_egress.Socks.Conn.{
  SocksError, Talk, ◌>>=◌, ◌>>◌, pure, fail, require, read_full, write, byte_at, bad_version,
  bad_address_type, bad_credentials, rejected, unsupported_method, unauthenticated, host_too_long,
  destination_refused,
}
use global_egress.Socks.Server.{port_bytes}

-- What net.ParseIP returns, with the form of To4 when there is one.
pub data Ip : Type 0 where
  ip4 : Bytes → Ip
  ip6 : Bytes → Ip

-- The username and the password, both empty when there is no authentication.
pub record Credentials : Type 0 where
  pub username : Bytes
  pub password : Bytes

abbrev pub wants_auth : Credentials → Bool
wants_auth d = not (is_empty d.username) || not (is_empty d.password)

abbrev pub has_both : Credentials → Bool
has_both d = not (is_empty d.username) && not (is_empty d.password)

abbrev pub credentials_fit : Credentials → Bool
credentials_fit d = leb (length d.username) 255 && leb (length d.password) 255 && has_both d

-- The greeting, with the one method that the client offers.
abbrev pub greeting : Credentials → Bytes
greeting d = if wants_auth d then 5 ∷ 1 ∷ 2 ∷ [] else 5 ∷ 1 ∷ 0 ∷ []

abbrev pub auth_bytes : Credentials → Bytes
auth_bytes d = 1 ∷ length d.username ∷ d.username ++ length d.password ∷ d.password

-- buildConnect
unfoldable pub build_connect : (Bytes → Option Ip) → Bytes → ℕ → Result SocksError Bytes
build_connect parse_ip host port = elim (parse_ip host) [
  | some (ip4 ip) ↦ ok (5 ∷ 1 ∷ 0 ∷ 1 ∷ ip ++ port_bytes port)
  | some (ip6 ip) ↦ ok (5 ∷ 1 ∷ 0 ∷ 4 ∷ ip ++ port_bytes port)
  | none ↦
      if ltb 255 (length host)
      then err host_too_long
      else ok (5 ∷ 1 ∷ 0 ∷ 3 ∷ length host ∷ host ++ port_bytes port)
]

-- The rest of a reply: the bound address is read and dropped.
unfoldable pub skip_bound : ℕ → Talk (Unit {0})
unfolding read_full
skip_bound kind =
    if kind == 1
    then read_full 6 >>= (λ _. pure tt)
    else if kind == 4
    then read_full 18 >>= (λ _. pure tt)
    else if kind == 3
    then read_full 1 >>= (λ n. read_full (byte_at 0 n + 2) >>= (λ _. pure tt))
    else fail bad_address_type

-- readConnectReply
unfoldable pub read_connect_reply : Talk (Unit {0})
unfolding read_full skip_bound
read_connect_reply = do
  header ← read_full 4
  require (byte_at 0 header == 5) bad_version
  require (byte_at 1 header == 0) (destination_refused (byte_at 1 header))
  skip_bound (byte_at 3 header)

-- The answer to the greeting, and the authentication when the proxy asks for it.
unfoldable pub authenticate : Credentials → Bytes → Talk (Unit {0})
unfolding read_full write
authenticate d reply =
    if byte_at 1 reply == 2 && has_both d
    then write (auth_bytes d)
      >> (read_full 2 >>= λ answer.
          require (byte_at 0 answer == 1 && byte_at 1 answer == 0) rejected)
    else if not (byte_at 1 reply == 0)
    then fail unsupported_method
    else require (not (wants_auth d)) unauthenticated

-- Dialer.negotiate, apart from its deadline.
unfoldable pub dial_negotiate : (Bytes → Option Ip) → Credentials → Bytes → ℕ → Talk (Unit {0})
unfolding read_full write authenticate build_connect read_connect_reply
dial_negotiate parse_ip d host port = do
  require (not (wants_auth d) || credentials_fit d) bad_credentials
  write (greeting d)
  reply ← read_full 2
  require (byte_at 0 reply == 5) bad_version
  authenticate d reply
  request ← (λ c. (c, build_connect parse_ip host port))
  write request
  read_connect_reply
