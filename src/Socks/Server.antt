-- ===== src/Socks/Server.antt =====
-- internal/proxy/socks5.go: the negotiation with a client, its CONNECT request and the reply.
use global_egress.Shared.{
  ℕ, ◌+◌, ◌*◌, ◌%◌, ◌/◌, Bool, true, false, ◌||◌, [], ◌∷◌, ◌++◌, Bytes, nat_eq, ◌==◌, if◌then◌else◌,
  any, is_empty, Result, ok, err,
}
use global_egress.Policy.{Policy}
use global_egress.Socks.Conn.{
  SocksError, Talk, ◌>>=◌, ◌>>◌, pure, fail, require, read_full, write, try_write, byte_at,
  bad_version, bad_auth_version, no_method, bad_command, bad_address_type, empty_destination,
}

-- readUserPass
unfoldable pub read_user_pass : Talk (Bytes × Bytes)
unfolding read_full
read_user_pass = do
  header ← read_full 2
  require (byte_at 0 header == 1) bad_auth_version
  username ← read_full (byte_at 1 header)
  length_byte ← read_full 1
  password ← read_full (byte_at 0 length_byte)
  pure (username, password)

-- What `authorize` answers: the username, the password and whether there were credentials.
abbrev pub Authorize : Type 0
Authorize = Bytes → Bytes → Bool → Result SocksError Policy

-- The policy, when the answer is one; otherwise `reply` is sent to the client.
unfoldable pub accept_or : Bytes → Bytes → Result SocksError Policy → Talk Policy
unfolding write try_write
accept_or accepted refused (ok pol) = write accepted >> pure pol
accept_or accepted refused (err e) = try_write refused >> fail e

-- SOCKS5Server.negotiate
unfoldable pub negotiate : Authorize → Talk Policy
unfolding read_full write try_write read_user_pass accept_or
negotiate authorize = do
  header ← read_full 2
  require (byte_at 0 header == 5) bad_version
  methods ← read_full (byte_at 1 header)
  if any (λ m. m == 2) methods
      then write (5 ∷ 2 ∷ [])
        >> (read_user_pass >>= λ (username, password).
            accept_or (1 ∷ 0 ∷ []) (1 ∷ 1 ∷ []) (authorize username password true))
      else if any (λ m. m == 0) methods
      then accept_or (5 ∷ 0 ∷ []) (5 ∷ 255 ∷ []) (authorize [] [] false)
      else (try_write (5 ∷ 255 ∷ []) >> fail no_method)

-- The address that a connection is bound to, when it is a TCP address with an IP.
pub data Bound : Type 0 where
  unknown_bound : Bound
  bound4 : Bytes → ℕ → Bound
  bound6 : Bytes → ℕ → Bound

-- binary.BigEndian.PutUint16(uint16(port))
abbrev pub port_bytes : ℕ → Bytes
port_bytes port = port / 256 % 256 ∷ port % 256 ∷ []

-- What writeReply sends.
unfoldable pub reply_bytes : ℕ → Bound → Bytes
reply_bytes code unknown_bound = 5 ∷ code ∷ 0 ∷ 1 ∷ 0 ∷ 0 ∷ 0 ∷ 0 ∷ 0 ∷ 0 ∷ []
reply_bytes code (bound4 ip port) = 5 ∷ code ∷ 0 ∷ 1 ∷ ip ++ port_bytes port
reply_bytes code (bound6 ip port) = 5 ∷ code ∷ 0 ∷ 4 ∷ ip ++ port_bytes port

-- writeReply
unfoldable pub write_reply : ℕ → Bound → Talk (Unit {0})
unfolding write reply_bytes
write_reply code bound = write (reply_bytes code bound)

module _ (ip_string : Bytes → Bytes) where
  -- The host of a request, by its address type.
  unfoldable pub read_host : ℕ → Talk Bytes
  unfolding read_full try_write reply_bytes
  read_host kind =
      if kind == 1
      then read_full 4 >>= (λ ip. pure (ip_string ip))
      else if kind == 4
      then read_full 16 >>= (λ ip. pure (ip_string ip))
      else if kind == 3
      then read_full 1 >>= (λ n. read_full (byte_at 0 n))
      else (try_write (reply_bytes 8 unknown_bound) >> fail bad_address_type)

  -- readRequest
  unfoldable pub read_request : Talk (Bytes × ℕ)
  unfolding read_host read_full try_write reply_bytes
  read_request = do
    header ← read_full 4
    require (byte_at 0 header == 5) bad_version
    (if byte_at 1 header == 1
        then pure tt
        else (try_write (reply_bytes 7 unknown_bound) >> fail bad_command))
    host ← read_host (byte_at 3 header)
    port ← read_full 2
    require (if is_empty host || byte_at 0 port * 256 + byte_at 1 port == 0 then false else true)
        empty_destination
    pure (host, byte_at 0 port * 256 + byte_at 1 port)
