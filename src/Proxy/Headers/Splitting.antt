-- ===== src/Proxy/Headers/Splitting.antt =====
-- No value that the proxy writes splits its response to CONNECT (writeConnectEstablished in
-- internal/proxy/http.go), and no header of the X-Egress namespace passes through it.
use global_egress.Shared.{
  ℕ, ◌≡◌, refl, ap, sym, ◌∙◌, Bool, true, false, not, ◌&&◌, ◌||◌, List, [], ◌∷◌, ◌++◌, map, Option,
  none, some, Bytes, codes, nat_eq, ◌==◌, leb, Addr, if◌then◌else◌, All, append_assoc, split_at,
  arith, Bool-cases, inl, inr,
}
use Prim.Native.String.{String}
use global_egress.Policy.{Policy}
use global_egress.Pool.State.{Spec}
use global_egress.Pool.Acquire.{Lease}
use global_egress.Proxy.Headers.{
  crlf, header_line, header_lines, egress_headers, valid_header_value, write_connect_established,
}

abbrev is_newline : ℕ → Bool
is_newline c = c == 10

abbrev pub lines : Bytes → List Bytes
lines = split_at is_newline

abbrev IsLine : Bytes → Type 0
IsLine = All (λ c. is_newline c ≡ false)

-- One line is one part, whatever follows its end.
split_at-line : (line rest : Bytes) → IsLine line → lines (line ++ (10 ∷ rest)) ≡ line ∷ lines rest
unfolding split_at
split_at-line [] rest h = refl
split_at-line (c ∷ cs) rest (x, xs) = rw (x, split_at-line cs rest xs) refl

valid_header_value-IsLine : (value : Bytes) → valid_header_value value ≡ true → IsLine value
unfolding valid_header_value
valid_header_value-IsLine [] h = tt
valid_header_value-IsLine (c ∷ cs) h = elim (Bool-cases (c == 9 || (leb 32 c && not (c == 127)))) [
  | inl e ↦ (ground (arith, e), valid_header_value-IsLine cs (rw e at h))
  | inr e ↦ absurd (impossible (rw e at h))
]
  where
    impossible : false ≡ true → ⊥
    impossible q = cc

All-append : (P : ℕ → Type 0) (xs ys : Bytes) → All P xs → All P ys → All P (xs ++ ys)
All-append P [] ys h k = k
All-append P (x ∷ xs) ys (p, h) k = (p, All-append P xs ys h k)

-- The headers that are written: those with a valid value.
unfoldable pub written : List (Bytes × Option Bytes) → List (Bytes × Bytes)
unfolding valid_header_value
written [] = []
written ((key, none) ∷ headers) = written headers
written ((key, some value) ∷ headers) =
    let rest = written headers in if valid_header_value value then (key, value) ∷ rest else rest

abbrev pub ended_line : Bytes × Bytes → Bytes
ended_line (key, value) = header_line key value ++ (13 ∷ [])

header_lines-lines :
    (headers : List (Bytes × Option Bytes)) (rest : Bytes)
    → All (λ h. IsLine h.0) headers
    → lines (header_lines headers ++ rest) ≡ map ended_line (written headers) ++ lines rest
unfolding header_lines written
header_lines-lines [] rest h = refl
header_lines-lines ((key, none) ∷ headers) rest (k, h) = header_lines-lines headers rest h
header_lines-lines ((key, some value) ∷ headers) rest (k, h) =
    elim (Bool-cases (valid_header_value value)) [
      | inl e ↦ rw e (one_line e (header_lines-lines headers rest h))
      | inr e ↦ rw e (header_lines-lines headers rest h)
    ]
  where
    line : Bytes
    line = ended_line (key, value)

    IsLine-line : valid_header_value value ≡ true → IsLine line
    IsLine-line e =
        All-append _ (header_line key value) (13 ∷ [])
          (All-append _ (key ++ codes ": ") value
            (All-append _ key (codes ": ") k (refl, (refl, tt)))
            (valid_header_value-IsLine value e))
          (refl, tt)

    regroup :
        header_line key value ++ crlf ++ header_lines headers ++ rest
        ≡ line ++ (10 ∷ (header_lines headers ++ rest))
    regroup =
        let tail = header_lines headers ++ rest in
        append_assoc (header_line key value ++ crlf) (header_lines headers) rest
        ∙ append_assoc (header_line key value) crlf tail
        ∙ sym (append_assoc (header_line key value) (13 ∷ []) (10 ∷ tail))

    one_line :
        valid_header_value value ≡ true
        → lines (header_lines headers ++ rest) ≡ map ended_line (written headers) ++ lines rest
        → lines (header_line key value ++ crlf ++ header_lines headers ++ rest)
          ≡ line ∷ (map ended_line (written headers) ++ lines rest)
    one_line e rec =
        ap lines regroup
        ∙ split_at-line line (header_lines headers ++ rest) (IsLine-line e)
        ∙ ap (λ r. line ∷ r) rec

abbrev HasKeys : List (Bytes × Option Bytes) → Type 0
HasKeys = All (λ h. IsLine h.0)

egress_headers-HasKeys :
    (duration_string : ℕ → Bytes) (addr_string : Addr → Bytes) (int_string : ℕ → Bytes)
    (slot : Spec) (l : Lease) (pol : Policy)
    → HasKeys (egress_headers duration_string addr_string int_string slot l pol)
unfolding egress_headers valid_header_value
egress_headers-HasKeys duration_string addr_string int_string slot l pol = (
  key "X-Egress-Slot" refl,
  (
    key "X-Egress-Country" refl,
    (
      key "X-Egress-City" refl,
      (key "X-Egress-IP" refl, (key "X-Egress-Session" refl, (key "X-Egress-Policy" refl, tt))),
    ),
  ),
)
  where
    key : (name : String) → valid_header_value (codes name) ≡ true → IsLine (codes name)
    key name = valid_header_value-IsLine (codes name)

-- A client that reads the response to CONNECT line by line, each ended by a line feed, finds the
-- status line, one line for each header with a valid value, the empty line, and nothing after it:
-- whatever bytes the catalog, the session or the policy put into the values, they cannot end the
-- response early or add a header.
pub write_connect_established-lines :
    (duration_string : ℕ → Bytes) (addr_string : Addr → Bytes) (int_string : ℕ → Bytes)
    (slot : Spec) (l : Lease) (pol : Policy)
    → lines (write_connect_established duration_string addr_string int_string slot l pol)
      ≡ (codes "HTTP/1.1 200 Connection Established" ++ (13 ∷ []))
        ∷ (map ended_line
              (written (egress_headers duration_string addr_string int_string slot l pol))
            ++ ((13 ∷ []) ∷ [] ∷ []))
unfolding write_connect_established split_at
write_connect_established-lines duration_string addr_string int_string slot l pol =
    let headers = egress_headers duration_string addr_string int_string slot l pol in
    ap (λ r. (codes "HTTP/1.1 200 Connection Established" ++ (13 ∷ [])) ∷ r)
      (header_lines-lines headers crlf
        (egress_headers-HasKeys duration_string addr_string int_string slot l pol))
