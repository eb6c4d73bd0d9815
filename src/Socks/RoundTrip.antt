-- ===== src/Socks/RoundTrip.antt =====
-- The client and the server understand each other: what one writes, the other reads back.
use global_egress.Shared.{
  ℕ, suc, ◌+◌, ◌*◌, ◌%◌, ◌/◌, ◌≤◌, ◌<◌, ◌≡◌, ◌≢◌, refl, ◌∙◌, subst, true, false, ◌||◌, [], ◌∷◌,
  ◌++◌, Option, none, some, Bytes, nat_eq, ◌==◌, if◌then◌else◌, is_empty, length, leb, ltb, ok,
  append_assoc, length-append, arith,
}
use global_egress.Policy.{Policy}
use global_egress.Socks.Conn.{
  empty_destination, Conn, Talk, ◌>>=◌, ◌>>◌, pure, require, read_full, read_full-append, byte_at,
}
use global_egress.Socks.Server.{
  Authorize, negotiate, read_user_pass, read_host, read_request, port_bytes, Bound, unknown_bound,
  bound4, bound6, reply_bytes, write_reply,
}
use global_egress.Socks.Client.{
  Ip, ip4, ip6, Credentials, credentials_fit, auth_bytes, build_connect, skip_bound,
  read_connect_reply, dial_negotiate,
}

abbrev pub talk : Bytes → Bytes → ℕ → Conn
talk incoming outgoing writable = record {
  incoming = incoming;
  outgoing = outgoing;
  writable = writable;
}

-- The name that the server hands on for a destination.
abbrev pub canonical : (Bytes → Bytes) → Option Ip → Bytes → Bytes
canonical ip_string none host = host
canonical ip_string (some (ip4 ip)) host = ip_string ip
canonical ip_string (some (ip6 ip)) host = ip_string ip

-- ParseIP returns addresses of four and of sixteen bytes, and every address has a text.
abbrev pub IsRead : (Bytes → Bytes) → Option Ip → Type 0
IsRead ip_string none = Unit
IsRead ip_string (some (ip4 ip)) = (length ip ≡ 4) × (ip_string ip ≢ [])
IsRead ip_string (some (ip6 ip)) = (length ip ≡ 16) × (ip_string ip ≢ [])

-- The bytes of a request for a destination.
abbrev pub request_of : Option Ip → Bytes → ℕ → Bytes
request_of none host port = 5 ∷ 1 ∷ 0 ∷ 3 ∷ length host ∷ host ++ port_bytes port
request_of (some (ip4 ip)) host port = 5 ∷ 1 ∷ 0 ∷ 1 ∷ ip ++ port_bytes port
request_of (some (ip6 ip)) host port = 5 ∷ 1 ∷ 0 ∷ 4 ∷ ip ++ port_bytes port

port_read : (port : ℕ) → port < 65536 → port / 256 % 256 * 256 + port % 256 ≡ port
port_read port h = omega arith

port_bytes-append :
    (ip rest : Bytes) (port : ℕ)
    → (ip ++ port_bytes port) ++ rest ≡ ip ++ (port / 256 % 256 ∷ port % 256 ∷ rest)
port_bytes-append ip rest port = append_assoc {0} ip (port_bytes port) rest

test_of : (host : Bytes) (n : ℕ) → host ≢ [] → 1 ≤ n → (is_empty host || n == 0) ≡ false
test_of [] n named low = absurd (named refl)
test_of (c ∷ cs) n named low = ground arith

-- The end of `read_request`, when the host is known.
abbrev finish : Bytes → Talk (Bytes × ℕ)
finish host = read_full 2 >>= λ p.
    require (if is_empty host || byte_at 0 p * 256 + byte_at 1 p == 0 then false else true)
      empty_destination
    >> pure (host, byte_at 0 p * 256 + byte_at 1 p)

finish-port :
    (host : Bytes) (port : ℕ) (rest out : Bytes) (w : ℕ)
    → host ≢ []
    → 1 ≤ port
    → port < 65536
    → finish host (talk (port / 256 % 256 ∷ port % 256 ∷ rest) out w)
      ≡ (talk rest out w, ok (host, port))
finish-port host port rest out w named low high =
    rw
      (
        read_full-append (port / 256 % 256 ∷ port % 256 ∷ []) rest out w,
        port_read port high,
        test_of host port named low,
      )
      refl

request_head :
    (ip_string : Bytes → Bytes) (kind : ℕ) (tail out : Bytes) (w : ℕ)
    → read_request ip_string (talk (5 ∷ 1 ∷ 0 ∷ kind ∷ tail) out w)
      ≡ (read_host ip_string kind >>= finish) (talk tail out w)
unfolding read_request
request_head ip_string kind tail out w =
    rw (read_full-append (5 ∷ 1 ∷ 0 ∷ kind ∷ []) tail out w) refl

named_host :
    (ip_string : Bytes → Bytes) (o : Option Ip) (host : Bytes)
    → IsRead ip_string o
    → host ≢ []
    → canonical ip_string o host ≢ []
named_host ip_string none host r named = named
named_host ip_string (some (ip4 ip)) host r named = r.1
named_host ip_string (some (ip6 ip)) host r named = r.1

read_sized :
    (n : ℕ) (xs ys out : Bytes) (w : ℕ)
    → length xs ≡ n
    → read_full n (talk (xs ++ ys) out w) ≡ (talk ys out w, ok xs)
read_sized n xs ys out w e =
    subst (λ k. read_full k (talk (xs ++ ys) out w) ≡ (talk ys out w, ok xs)) e
      (read_full-append xs ys out w)

-- A request that the client writes is read back by the server: the destination is the one asked for,
-- a name as it is and an address in its canonical text, and what follows is left unread.
request-read :
    (ip_string : Bytes → Bytes) (o : Option Ip) (host : Bytes) (port : ℕ) (rest out : Bytes) (w : ℕ)
    → IsRead ip_string o
    → host ≢ []
    → 1 ≤ port
    → port < 65536
    → read_request ip_string (talk (request_of o host port ++ rest) out w)
      ≡ (talk rest out w, ok (canonical ip_string o host, port))
unfolding read_host
request-read ip_string none host port rest out w r named low high =
    request_head ip_string 3 _ out w
    ∙ rw
        (
          read_full-append (length host ∷ []) ((host ++ port_bytes port) ++ rest) out w,
          port_bytes-append host rest port,
          read_full-append host (port / 256 % 256 ∷ port % 256 ∷ rest) out w,
        )
        (finish-port host port rest out w named low high)
request-read ip_string (some (ip4 ip)) host port rest out w r named low high =
    request_head ip_string 1 _ out w
    ∙ rw
        (
          port_bytes-append ip rest port,
          read_sized 4 ip (port / 256 % 256 ∷ port % 256 ∷ rest) out w r.0,
        )
        (finish-port (ip_string ip) port rest out w r.1 low high)
request-read ip_string (some (ip6 ip)) host port rest out w r named low high =
    request_head ip_string 4 _ out w
    ∙ rw
        (
          port_bytes-append ip rest port,
          read_sized 16 ip (port / 256 % 256 ∷ port % 256 ∷ rest) out w r.0,
        )
        (finish-port (ip_string ip) port rest out w r.1 low high)

user_pass-read :
    (d : Credentials) (rest out : Bytes) (w : ℕ)
    → read_user_pass (talk (auth_bytes d ++ rest) out w)
      ≡ (talk rest out w, ok (d.username, d.password))
unfolding read_user_pass
user_pass-read d rest out w =
    rw
      (
        append_assoc {0} d.username (length d.password ∷ d.password) rest,
        read_full-append (1 ∷ length d.username ∷ [])
            (d.username ++ (length d.password ∷ (d.password ++ rest))) out w,
        read_full-append d.username (length d.password ∷ (d.password ++ rest)) out w,
        read_full-append (length d.password ∷ []) (d.password ++ rest) out w,
        read_full-append d.password rest out w,
      )
      refl

-- The method negotiation of a client with credentials, on the side of the server.
negotiated :
    (authorize : Authorize) (d : Credentials) (pol : Policy) (rest out : Bytes) (w : ℕ)
    → authorize d.username d.password true ≡ ok pol
    → negotiate authorize (talk (5 ∷ 1 ∷ 2 ∷ (auth_bytes d ++ rest)) out (suc (suc w)))
      ≡ (talk rest ((out ++ (5 ∷ 2 ∷ [])) ++ (1 ∷ 0 ∷ [])) w, ok pol)
unfolding negotiate
negotiated authorize d pol rest out w accepted =
    rw
      (
        read_full-append (5 ∷ 1 ∷ []) (2 ∷ (auth_bytes d ++ rest)) out (suc (suc w)),
        read_full-append (2 ∷ []) (auth_bytes d ++ rest) out (suc (suc w)),
        user_pass-read d rest (out ++ (5 ∷ 2 ∷ [])) (suc w),
        accepted,
      )
      refl

-- The server, from the greeting to the reply.
abbrev pub serve : Authorize → (Bytes → Bytes) → Bound → Talk (Policy × Bytes × ℕ)
serve authorize ip_string bound = negotiate authorize >>= λ pol.
    read_request ip_string >>= λ (host, port). write_reply 0 bound >> pure (pol, host, port)

-- What a client with credentials sends in all.
abbrev pub sent_by : Credentials → Option Ip → Bytes → ℕ → Bytes
sent_by d o host port = 5 ∷ 1 ∷ 2 ∷ (auth_bytes d ++ request_of o host port)

-- What the server answers in all.
abbrev pub answered : Bound → Bytes
answered bound = 5 ∷ 2 ∷ 1 ∷ 0 ∷ reply_bytes 0 bound

served :
    (authorize : Authorize) (ip_string : Bytes → Bytes) (bound : Bound) (d : Credentials)
    (pol : Policy) (o : Option Ip) (host : Bytes) (port : ℕ) (stream : Bytes)
    → authorize d.username d.password true ≡ ok pol
    → IsRead ip_string o
    → host ≢ []
    → 1 ≤ port
    → port < 65536
    → serve authorize ip_string bound (talk (sent_by d o host port ++ stream) [] 3)
      ≡ (talk stream (answered bound) 0, ok (pol, canonical ip_string o host, port))
unfolding write_reply
served authorize ip_string bound d pol o host port stream accepted r named low high =
    rw
      (
        append_assoc {0} (auth_bytes d) (request_of o host port) stream,
        negotiated authorize d pol (request_of o host port ++ stream) [] 1 accepted,
        request-read ip_string o host port stream (5 ∷ 2 ∷ 1 ∷ 0 ∷ []) 1 r named low high,
      )
      refl

-- A reply of success is read to its end, whatever address it names.
abbrev pub IsBound : Bound → Type 0
IsBound unknown_bound = Unit
IsBound (bound4 ip port) = length ip ≡ 4
IsBound (bound6 ip port) = length ip ≡ 16

length-port :
    (n : ℕ) (ip : Bytes) (port : ℕ) → length ip ≡ n → length (ip ++ port_bytes port) ≡ n + 2
length-port n ip port e = omega (arith, length-append {0} ip (port_bytes port), e)

reply-read :
    (bound : Bound) (stream out : Bytes) (w : ℕ)
    → IsBound bound
    → read_connect_reply (talk (reply_bytes 0 bound ++ stream) out w) ≡ (talk stream out w, ok tt)
unfolding read_connect_reply skip_bound reply_bytes
reply-read unknown_bound stream out w fits =
    rw
      (
        read_full-append (5 ∷ 0 ∷ 0 ∷ 1 ∷ []) (0 ∷ 0 ∷ 0 ∷ 0 ∷ 0 ∷ 0 ∷ stream) out w,
        read_full-append (0 ∷ 0 ∷ 0 ∷ 0 ∷ 0 ∷ 0 ∷ []) stream out w,
      )
      refl
reply-read (bound4 ip port) stream out w fits =
    rw
      (
        read_full-append (5 ∷ 0 ∷ 0 ∷ 1 ∷ []) ((ip ++ port_bytes port) ++ stream) out w,
        read_sized 6 (ip ++ port_bytes port) stream out w (length-port 4 ip port fits),
      )
      refl
reply-read (bound6 ip port) stream out w fits =
    rw
      (
        read_full-append (5 ∷ 0 ∷ 0 ∷ 4 ∷ []) ((ip ++ port_bytes port) ++ stream) out w,
        read_sized 18 (ip ++ port_bytes port) stream out w (length-port 16 ip port fits),
      )
      refl

build-request :
    (parse_ip : Bytes → Option Ip) (host : Bytes) (port : ℕ)
    → length host ≤ 255
    → build_connect parse_ip host port ≡ ok (request_of (parse_ip host) host port)
unfolding build_connect
build-request parse_ip host port short = split (parse_ip host) refl
  where
    split :
        (o : Option Ip)
        → parse_ip host ≡ o
        → build_connect parse_ip host port ≡ ok (request_of (parse_ip host) host port)
    split none e =
        let fits : ltb 255 (length host) ≡ false = ground arith in rw (e, build_connect, fits) refl
    split (some (ip4 ip)) e = rw (e, build_connect) refl
    split (some (ip6 ip)) e = rw (e, build_connect) refl

credentials_fit-parts :
    (d : Credentials)
    → credentials_fit d ≡ true
    → (is_empty d.username ≡ false)
      × (is_empty d.password ≡ false)
      × (leb (length d.username) 255 ≡ true)
      × (leb (length d.password) 255 ≡ true)
credentials_fit-parts d h = ground arith

dialled :
    (parse_ip : Bytes → Option Ip) (d : Credentials) (bound : Bound) (host : Bytes) (port : ℕ)
    (stream : Bytes)
    → credentials_fit d ≡ true
    → length host ≤ 255
    → IsBound bound
    → dial_negotiate parse_ip d host port (talk (answered bound ++ stream) [] 3)
      ≡ (talk stream (sent_by d (parse_ip host) host port) 0, ok tt)
unfolding dial_negotiate
dialled parse_ip d bound host port stream both short bounded =
    let (user, pass, user_fits, pass_fits) = credentials_fit-parts d both in
    rw
      (
        user,
        pass,
        user_fits,
        pass_fits,
        read_full-append (5 ∷ 2 ∷ []) (1 ∷ 0 ∷ (reply_bytes 0 bound ++ stream)) (5 ∷ 1 ∷ 2 ∷ []) 2,
        read_full-append (1 ∷ 0 ∷ []) (reply_bytes 0 bound ++ stream) (5 ∷ 1 ∷ 2 ∷ auth_bytes d) 1,
        build-request parse_ip host port short,
        reply-read bound stream (sent_by d (parse_ip host) host port) 0 bounded,
      )
      refl

-- A client with credentials and the server finish their handshake on each other's bytes, whatever
-- destination the client asks for and whatever address the server is bound to: from the client's bytes
-- the server reads the username, the password and the destination (a name as it is, an address in its
-- canonical text), and from the server's answer the client reads its success; each leaves unread what
-- the other side sends after it. Each side's writes succeed, and the server accepts the credentials.
pub serve-dial_negotiate :
    (authorize : Authorize) (ip_string : Bytes → Bytes) (parse_ip : Bytes → Option Ip)
    (d : Credentials) (pol : Policy) (bound : Bound) (host : Bytes) (port : ℕ)
    (upload download : Bytes)
    → authorize d.username d.password true ≡ ok pol
    → credentials_fit d ≡ true
    → IsRead ip_string (parse_ip host)
    → IsBound bound
    → host ≢ []
    → length host ≤ 255
    → 1 ≤ port
    → port < 65536
    → (serve authorize ip_string bound (talk (sent_by d (parse_ip host) host port ++ upload) [] 3)
        ≡ (
          talk upload (answered bound) 0,
          ok (pol, canonical ip_string (parse_ip host) host, port),
        ))
      × (dial_negotiate parse_ip d host port (talk (answered bound ++ download) [] 3)
          ≡ (talk download (sent_by d (parse_ip host) host port) 0, ok tt))
serve-dial_negotiate authorize ip_string parse_ip d pol bound host port upload download accepted
      both r bounded named short low high =
    (
      served authorize ip_string bound d pol (parse_ip host) host port upload accepted r named low
          high,
      dialled parse_ip d bound host port download both short bounded,
    )
