-- ===== src/Policy/Render.antt =====
-- String and LogString in internal/policy/policy.go. How the standard library writes a duration, an
-- address and a number is taken from outside.
use global_egress.Shared.{
  ℕ, Bool, not, ◌&&◌, List, [], ◌∷◌, ◌++◌, map, Bytes, codes, bytes_eq, nat_eq, ◌==◌, Addr,
  is_empty, if◌then◌else◌, ltb, length, join, bytes_beq,
}
use global_egress.Policy.{Policy}
use global_egress.Policy.Parse.{is_negative}

-- One directive, when it says something.
abbrev part : Bool → List Bytes → List Bytes
part said parts = if said then parts else []

-- Policy with the fields that LogString clears.
abbrev pub redacted : Policy → Policy
redacted p = record p { exclude_ips = []; health_scope = [] }

module _ (duration_string : ℕ → Bytes) (addr_string : Addr → Bytes) (int_string : ℕ → Bytes) where
  unfoldable pub parts : Policy → List Bytes
  parts p =
      part p.any_exit (codes "any=1" ∷ [])
      ++ part (not (is_empty p.countries)) ((codes "cc=" ++ join (codes "|") p.countries) ∷ [])
      ++ part (not (is_empty p.cities)) ((codes "city=" ++ join (codes "|") p.cities) ∷ [])
      ++ part (not (is_empty p.slot)) ((codes "slot=" ++ p.slot) ∷ [])
      ++ part (not (is_empty p.provider)) ((codes "provider=" ++ p.provider) ∷ [])
      ++ part (not (is_empty p.session)) ((codes "sess=" ++ p.session) ∷ [])
      ++ part (ltb 0 p.ttl && not (is_negative p.ttl))
          ((codes "ttl=" ++ duration_string p.ttl) ∷ [])
      ++ part (not (is_empty p.unique_batch)) ((codes "uniq=" ++ p.unique_batch) ∷ [])
      ++ part (ltb 0 p.batch_ttl && not (is_negative p.batch_ttl))
          ((codes "bttl=" ++ duration_string p.batch_ttl) ∷ [])
      ++ part (not (is_empty p.health_scope)) ((codes "health=" ++ p.health_scope) ∷ [])
      ++ map (λ ip. codes "not=" ++ addr_string ip) p.exclude_ips

  -- String
  unfoldable pub policy_string : Policy → Bytes
  unfolding parts join
  policy_string p = if is_empty (parts p) then codes "(none)" else join (codes ";") (parts p)

  unfoldable pub suffixes : Bool → ℕ → List Bytes
  suffixes has_health_scope excluded =
      part has_health_scope (codes "health=present" ∷ [])
      ++ part (ltb 0 excluded) ((codes "not_count=" ++ int_string excluded) ∷ [])

  unfoldable pub with_suffixes : Bytes → List Bytes → Bytes
  unfolding join bytes_beq
  with_suffixes rendered extra =
      if is_empty extra
      then rendered
      else if rendered == codes "(none)"
      then join (codes ";") extra
      else rendered ++ codes ";" ++ join (codes ";") extra

  -- LogString
  unfoldable pub log_string : Policy → Bytes
  unfolding policy_string suffixes with_suffixes
  log_string p =
      with_suffixes (policy_string (redacted p))
        (suffixes (not (is_empty p.health_scope)) (length p.exclude_ips))
