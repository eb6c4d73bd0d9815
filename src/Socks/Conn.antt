-- ===== src/Socks/Conn.antt =====
-- A connection as the bytes that are still to be read and the bytes that were written, and the reads
-- and writes of internal/proxy/socks5.go and internal/socksdial/socksdial.go on it.
use global_egress.Shared.{
  ℕ, zero, suc, ◌≡◌, refl, Bool, true, [], ◌++◌, Bytes, arith, if◌then◌else◌, leb, length,
  length-append, take, drop, take-append, drop-append, get_elem?, or_default, Result, ok, err,
}
use global_egress.Policy.Parse.{PolicyError}

pub data SocksError : Type 0 where
  end_of_stream write_failed bad_version bad_auth_version no_method bad_command : SocksError
  bad_address_type empty_destination : SocksError
  unauthorized policy_required : SocksError
  bad_policy : PolicyError → SocksError
  bad_credentials rejected unsupported_method unauthenticated host_too_long : SocksError
  destination_refused : ℕ → SocksError

-- `writable` is how many more writes succeed.
pub record Conn : Type 0 where
  pub incoming : Bytes
  pub outgoing : Bytes
  pub writable : ℕ

abbrev pub Talk {ℓ} : Type ℓ → Type ℓ
Talk A = Conn → Conn × Result SocksError A

abbrev pub go_on {ℓ κ} :
    {A : Type ℓ} {B : Type κ}
    → Conn × Result SocksError A
    → (A → Talk B)
    → Conn × Result SocksError B
go_on (c, ok a) f = f a c
go_on (c, err e) f = (c, err e)

infixl 5 ◌>>=◌
abbrev pub ◌>>=◌ {ℓ κ} : {A : Type ℓ} {B : Type κ} → Talk A → (A → Talk B) → Talk B
(m >>= f) c = go_on (m c) f

infixr 5 ◌>>◌
abbrev pub ◌>>◌ {κ} : {B : Type κ} → Talk (Unit {0}) → Talk B → Talk B
m >> k = m >>= λ _. k

abbrev pub pure {ℓ} : {A : Type ℓ} → A → Talk A
pure a c = (c, ok a)

abbrev pub fail {ℓ} : {A : Type ℓ} → SocksError → Talk A
fail e c = (c, err e)

abbrev pub require : Bool → SocksError → Talk (Unit {0})
require good e = if good then pure tt else fail e

-- io.ReadFull: a short stream is used up.
unfoldable pub read_full : ℕ → Talk Bytes
read_full n c =
    if leb n (length c.incoming)
    then (record c { incoming = drop n c.incoming }, ok (take n c.incoming))
    else (record c { incoming = [] }, err end_of_stream)

unfoldable pub write : Bytes → Talk (Unit {0})
write bytes c = elim c.writable [
  | zero ↦ (c, err write_failed)
  | suc n ↦ (record c { outgoing = c.outgoing ++ bytes; writable = n }, ok tt)
]

-- A write whose error the code ignores.
unfoldable pub try_write : Bytes → Talk (Unit {0})
unfolding write
try_write bytes c = ((write bytes c).0, ok tt)

-- A byte of a buffer that was read in full.
abbrev pub byte_at : ℕ → Bytes → ℕ
byte_at i bytes = or_default (get_elem? bytes i) 0

pub read_full-append :
    (xs ys out : Bytes) (w : ℕ)
    → read_full (length xs) (record { incoming = xs ++ ys; outgoing = out; writable = w })
      ≡ (record { incoming = ys; outgoing = out; writable = w }, ok xs)
unfolding read_full
read_full-append xs ys out w =
    let fits : leb (length xs) (length (xs ++ ys)) ≡ true =
      ground (arith, length-append {0} xs ys) in
    rw (fits, take-append {0} xs ys, drop-append {0} xs ys) refl
