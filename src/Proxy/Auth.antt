-- ===== src/Proxy/Auth.antt =====
-- Who may use the proxy, in internal/proxy/proxy.go and http.go: the client list, the password and the
-- policy. Parsers of the standard library are arguments.
use global_egress.Shared.{
  ℕ, Bool, true, false, not, ◌&&◌, List, Option, none, some, Bytes, codes, bytes_eq, nat_eq, ◌==◌,
  bytes_beq, Addr, if◌then◌else◌, any, is_empty, Result, ok, err, cut, equal_fold, trim_space,
}
use global_egress.Policy.{Policy, is_zero}
use global_egress.Policy.Parse.{parse}
use global_egress.Netguard.{Prefix, unmap, denies}
use global_egress.Socks.Conn.{SocksError, unauthorized, policy_required, bad_policy}

pub record AuthOptions : Type 0 where
  pub allowed_clients : List Prefix
  pub password : Bytes
  pub require_auth : Bool
  pub require_policy : Bool

-- checkClient; an address of a client is the text that its String method returns.
unfoldable pub check_client :
    (Bytes → Option Addr) → (Bytes → Option Bytes) → AuthOptions → Bytes → Bool
unfolding denies unmap
check_client parse_addr split_host_port d remote =
    let host : Bytes = elim (split_host_port remote) [ none ↦ remote | some host ↦ host ] in
    if is_empty d.allowed_clients then true else elim (parse_addr host) [
      | none ↦ false
      | some addr ↦ any (denies (unmap addr)) d.allowed_clients
    ]

module _ (parse_addr : Bytes → Option Addr) (parse_duration : Bytes → Option ℕ) where
  -- The policy of an accepted user.
  unfoldable pub policy_for : AuthOptions → Bytes → Result SocksError Policy
  unfolding parse is_zero
  policy_for d username = elim (parse parse_addr parse_duration username) [
    | err e ↦ err (bad_policy e)
    | ok pol ↦ if d.require_policy && is_zero pol then err policy_required else ok pol
  ]

  -- authorize
  unfoldable pub authorize : AuthOptions → Bytes → Bytes → Bool → Result SocksError Policy
  unfolding policy_for bytes_beq
  authorize d username password had_credentials =
      if not (is_empty d.password)
      then if not had_credentials
        then err unauthorized
        else if not (password == d.password)
        then err unauthorized
        else policy_for d username
      else if d.require_auth && not had_credentials
      then err unauthorized
      else policy_for d username

-- proxyCredentials of a Proxy-Authorization value.
unfoldable pub proxy_credentials : (Bytes → Option Bytes) → Bytes → Option (Bytes × Bytes)
unfolding cut equal_fold trim_space
proxy_credentials decode_base64 value = elim (cut b' ' value) [
  | none ↦ none
  | some (scheme, encoded) ↦
      if not (equal_fold scheme (codes "Basic"))
      then none
      else elim (decode_base64 (trim_space encoded)) [ none ↦ none | some raw ↦ cut b':' raw ]
]
