-- ===== src/Pool/Cooldowns.antt =====
-- Cooldowns per destination, of a slot and of a measured address, and what `expireLocked` drops, in
-- internal/pool/pool.go.
use global_egress.Shared.{
  ℕ, ◌||◌, Bool, true, false, not, [], Option, none, some, Bytes, bytes_eq, Addr, addr_eq, is_empty,
  is_valid, is_some, if◌then◌else◌, ltb, map, lookup, insert, delete, retain, map_values,
  or_default,
}
use global_egress.Pool.State.{SlotState, Pool, IpCooldowns}
use global_egress.Pool.Preferred.{prune}

-- Whether a time stands in the map at the key, and is still to come.
unfoldable pub pending_at : Option ℕ → ℕ → Bool
pending_at none now = false
pending_at (some until) now = ltb now until

unfoldable pub cooling_down : SlotState → Bytes → ℕ → Bool
unfolding pending_at
cooling_down s target now =
    if is_empty target || is_empty s.cooldowns
    then false
    else pending_at (lookup target s.cooldowns) now

-- The entry that has run out is deleted, and the destination with its last entry.
unfoldable pub forget_ip : Bytes → Addr → IpCooldowns → IpCooldowns
forget_ip target ip m =
    let rest = delete ip (or_default (lookup target m) []) in
    if is_empty rest then delete target m else insert target rest m

unfoldable pub ip_cooling_down : Bytes → Addr → ℕ → IpCooldowns → Bool × IpCooldowns
unfolding pending_at forget_ip
ip_cooling_down target ip now m =
    let entry = lookup ip (or_default (lookup target m) []) in
    if is_empty target || not (is_valid ip)
    then (false, m)
    else if not (is_some entry)
    then (false, m)
    else if pending_at entry now
    then (true, m)
    else (false, forget_ip target ip m)

unfoldable pub set_ip_cooldown : Bytes → Addr → ℕ → IpCooldowns → IpCooldowns
set_ip_cooldown target ip until m =
    let by_ip = or_default (lookup target m) [] in
    let current = or_default (lookup ip by_ip) 0 in
    if is_empty target || not (is_valid ip)
    then m
    else insert target (if ltb current until then insert ip until by_ip else by_ip) m

-- time.After: the moment itself is not past.
abbrev pub not_past : ℕ → ℕ → Bool
not_past now until = not (ltb until now)

unfoldable pub expire_cooldowns : ℕ → SlotState → SlotState
expire_cooldowns now s = record s { cooldowns = retain (λ _ until. not_past now until) s.cooldowns }

-- expireLocked
unfoldable pub expire : ℕ → Pool → Pool
unfolding prune expire_cooldowns
expire now p = record p {
  sessions = retain (λ _ s. not_past now s.expires_at) p.sessions;
  batches = retain (λ _ b. not_past now b.expires_at) p.batches;
  preferred = retain (λ _ s. not (is_empty s)) (map_values (prune now) p.preferred);
  slots = map (expire_cooldowns now) p.slots;
  ip_cooldowns =
      retain (λ _ by_ip. not (is_empty by_ip))
        (map_values (retain (λ _ until. not_past now until)) p.ip_cooldowns);
}
