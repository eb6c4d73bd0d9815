-- ===== src/Examples/Changes.antt =====
-- New pools and refreshed relays at concrete values.
use global_egress.Shared.{
  ◌≢◌, bytes_beq, bytes_beq_iff, true, false, All, arith, refl, inr, inl, In, Bytes, List, ◌+◌, ◌≡◌,
  refl, [], ◌∷◌, codes, ok, err,
}
use global_egress.Pool.State.{Spec, Pool}
use global_egress.Pool.System.{Reach}
use global_egress.Pool.System.Limits.{Capped}
use global_egress.Pool.Setup.{WireGuardSlot, new_with_specs, add_slots, sort_slots, apply_defaults}
use global_egress.Pool.Setup.Fresh.{IsNewPool, starting, new_with_specs-Reach}
use global_egress.Pool.Budget.{reserve_capacity, reserve_tunnel_open, open_count}
use global_egress.Pool.Opening.Opened.{HasTunnel, ensure_open-HasTunnel}
use global_egress.Pool.Opening.{OpenTurn, ensure_open, admit_open, finish_open, reserve_open}
use global_egress.Pool.Opening.Flights.{IsApart}
use global_egress.Pool.Opening.Sound.{Openings, without, IsWithin, AreSingle, IsOpening}
use global_egress.Pool.Opening.Capacity.{OpenStep, Opens, Opens-IsWithin}
use global_egress.Examples.Connections.{tunnel_pool}
use global_egress.Examples.Data.{japan, sweden, a_spec, the_options, the_pool}

abbrev the_specs : List Spec
the_specs = a_spec sweden (codes "se") ∷ a_spec japan (codes "jp") ∷ []

abbrev an_entry : WireGuardSlot
an_entry = record { id = codes "e1"; country = codes "de"; city = []; endpoint = [] }

abbrev built : Pool
unfolding new_with_specs
built = elim (new_with_specs the_specs (an_entry ∷ []) the_options) [ ok p ↦ p | err e ↦ the_pool ]

the_build : new_with_specs the_specs (an_entry ∷ []) the_options ≡ ok built
unfolding new_with_specs add_slots sort_slots apply_defaults
the_build = refl

new_with_specs-Reach_example :
    IsNewPool the_specs the_options built
    × Capped built.opts.max_concurrent_conns (built.leased + built.pending_leases)
    × (built.leased ≡ 0)
    × (built.pending_leases ≡ 0)
new_with_specs-Reach_example =
    new_with_specs-Reach the_specs (an_entry ∷ []) the_options built (starting built) the_build
      Reach.here

-- One caller opens the tunnel of a slot.
abbrev grounded : Openings
grounded = record { pool = tunnel_pool; flights = [] }

abbrev airborne : Openings
unfolding admit_open
airborne = record { pool = (admit_open japan false 500 tunnel_pool).0; flights = japan ∷ [] }

abbrev arrived : Openings
unfolding finish_open
arrived = record {
  pool = finish_open japan true 600 airborne.pool;
  flights = without japan airborne.flights;
}

to_arrived : Opens grounded arrived
unfolding admit_open finish_open reserve_open reserve_capacity reserve_tunnel_open
to_arrived =
    Opens.next (Opens.next Opens.here (OpenStep.takes_off japan 500 refl))
      (OpenStep.lands japan true 600 (inl refl))

apart_names : japan ≢ sweden
unfolding bytes_beq
apart_names e = clash ((bytes_beq_iff japan sweden).1 e)
  where
    clash : false ≡ true → ⊥
    clash q = cc

Opens-IsWithin_example :
    IsWithin arrived.pool
    × AreSingle arrived.flights
    × All IsApart arrived.pool.slots
    × ((id : Bytes) → In id arrived.flights → IsOpening arrived.pool.slots id)
unfolding open_count
Opens-IsWithin_example =
    Opens-IsWithin ((apart_names, tt), (tt, tt)) (refl, (refl, tt)) (inr (omega arith)) refl
      to_arrived

-- A caller waits for the Open of another one, which fails, and then opens the tunnel itself.
abbrev a_turn : OpenTurn
a_turn = record {
  gone = false;
  at = 500;
  waited = λ p. tunnel_pool;
  gone_waiting = false;
  gone_after = false;
  contacted_at = 510;
  opened = ok tt;
  meanwhile = λ p. p;
  opened_at = 520;
}

the_opening : (ensure_open japan (a_turn ∷ a_turn ∷ []) airborne.pool).1 ≡ ok tt
unfolding ensure_open reserve_open reserve_capacity reserve_tunnel_open
the_opening = refl

ensure_open-HasTunnel_example :
    HasTunnel japan (ensure_open japan (a_turn ∷ a_turn ∷ []) airborne.pool).0
ensure_open-HasTunnel_example =
    ensure_open-HasTunnel japan (a_turn ∷ a_turn ∷ []) airborne.pool the_opening
