-- ===== src/Proxy/Headers.antt =====
-- The headers of internal/proxy/http.go: what is forwarded, what is withheld, and the response to
-- CONNECT. `addr_string` is the String method of an address, `duration_string` that of a duration,
-- `int_string` prints a number.
pub mod Splitting
use global_egress.Shared.{
  ℕ, Bool, true, false, not, ◌&&◌, ◌||◌, List, [], ◌∷◌, ◌++◌, map, Option, none, some, Bytes, codes,
  bytes_eq, nat_eq, ◌==◌, bytes_beq, leb, Addr, if◌then◌else◌, any, filter, is_empty, equal_fold,
  to_lower, length, take, lookup, is_valid, Map,
}
use global_egress.Policy.{Policy}
use global_egress.Policy.Render.{policy_string}
use global_egress.Pool.State.{Spec}
use global_egress.Pool.Acquire.{Lease}

-- The headers of a message, in the order of their keys; http.Header holds one list for a key.
abbrev pub Header : Type 0
Header = Map Bytes (List Bytes)

abbrev pub hop_by_hop_headers : List Bytes
hop_by_hop_headers =
    codes "Connection"
    ∷ codes "Proxy-Connection"
    ∷ codes "Keep-Alive"
    ∷ codes "Proxy-Authenticate"
    ∷ codes "Proxy-Authorization"
    ∷ codes "Te"
    ∷ codes "Trailer"
    ∷ codes "Transfer-Encoding"
    ∷ codes "Upgrade"
    ∷ []

abbrev pub has_prefix : Bytes → Bytes → Bool
has_prefix [] s = true
has_prefix (x ∷ xs) [] = false
has_prefix (x ∷ xs) (y ∷ ys) = x == y && has_prefix xs ys

-- isEgressHeader
unfoldable pub is_egress_header : Bytes → Bool
unfolding to_lower
is_egress_header key = has_prefix (codes "x-egress-") (to_lower key)

-- http.Header.Del of a canonical key.
abbrev pub delete : Bytes → Header → Header
delete key = filter (λ (k, values). not (k == key))

-- stripEgressHeaders
unfoldable pub strip_egress_headers : Header → Header
unfolding is_egress_header
strip_egress_headers = filter (λ (k, values). not (is_egress_header k))

abbrev pub delete_all : List Bytes → Header → Header
delete_all [] h = h
delete_all (key ∷ keys) h = delete_all keys (delete key h)

-- The headers that handleForward sends to the origin.
unfoldable pub outbound_headers : Header → Header
unfolding strip_egress_headers bytes_beq
outbound_headers h = strip_egress_headers (delete_all hop_by_hop_headers h)

-- http.Header.Add for each of the values.
abbrev pub add_values : Bytes → List Bytes → Header → Header
add_values key values [] = if is_empty values then [] else (key, values) ∷ []
add_values key values ((k, others) ∷ h) =
    let rest = add_values key values h in
    if k == key then (k, others ++ values) ∷ h else (k, others) ∷ rest

-- copyForwardResponseHeaders
unfoldable pub copy_forward_response_headers : Header → Header → Header
unfolding is_egress_header bytes_beq
copy_forward_response_headers destination [] = destination
copy_forward_response_headers destination ((key, values) ∷ source) =
    let skipped = copy_forward_response_headers destination source in
    let copied = copy_forward_response_headers (add_values key values destination) source in
    if is_egress_header key then skipped else copied

-- validHeaderValue
unfoldable pub valid_header_value : Bytes → Bool
valid_header_value [] = true
valid_header_value (c ∷ cs) =
    let rest = valid_header_value cs in
    if c == 9 || (leb 32 c && not (c == 127)) then rest else false

abbrev non_empty : Bytes → Option Bytes
non_empty [] = none
non_empty (c ∷ cs) = some (c ∷ cs)

module _ (duration_string : ℕ → Bytes) (addr_string : Addr → Bytes) (int_string : ℕ → Bytes) where
  -- egressHeaders, with the key of each.
  unfoldable pub egress_headers : Spec → Lease → Policy → List (Bytes × Option Bytes)
  egress_headers slot l pol =
      (codes "X-Egress-Slot", some slot.id)
      ∷ (codes "X-Egress-Country", non_empty slot.country)
      ∷ (codes "X-Egress-City", non_empty slot.city)
      ∷ (codes "X-Egress-IP", if is_valid l.public_ip then some (addr_string l.public_ip) else none)
      ∷ (codes "X-Egress-Session", non_empty l.session)
      ∷ (codes "X-Egress-Policy", some (policy_string duration_string addr_string int_string pol))
      ∷ []

abbrev pub crlf : Bytes
crlf = 13 ∷ 10 ∷ []

abbrev pub header_line : Bytes → Bytes → Bytes
header_line key value = key ++ codes ": " ++ value

-- The loop of writeConnectEstablished over the keys.
unfoldable pub header_lines : List (Bytes × Option Bytes) → Bytes
unfolding valid_header_value
header_lines [] = []
header_lines ((key, none) ∷ headers) = header_lines headers
header_lines ((key, some value) ∷ headers) =
    let rest = header_lines headers in
    if not (valid_header_value value) then rest else header_line key value ++ crlf ++ rest

-- writeConnectEstablished
unfoldable pub write_connect_established :
    (ℕ → Bytes) → (Addr → Bytes) → (ℕ → Bytes) → Spec → Lease → Policy → Bytes
write_connect_established duration_string addr_string int_string slot l pol =
    codes "HTTP/1.1 200 Connection Established"
    ++ crlf
    ++ header_lines (egress_headers duration_string addr_string int_string slot l pol)
    ++ crlf
