-- ===== src/Examples/Bookkeeping.antt =====
-- The tunnel budget, a batch and a ring at concrete values.
use global_egress.Shared.{
  false, codes, inl, ◌+◌, ◌≤◌, ◌≡◌, refl, List, [], ◌∷◌, none, Bytes, bytes_eq, addr_eq, In, arith,
}
use global_egress.Pool.State.{Pool, EntryState, PreferredExit, Batch}
use global_egress.Pool.Entries.{score, ordered_entries}
use global_egress.Pool.Entries.Order.{ordered_entries-best}
use global_egress.Pool.Batch.{new_batch, reserve, release, still_used}
use global_egress.Pool.Batch.Burns.{IsAttributed, Burned, Freed, reserve-burns, release-frees}
use global_egress.Pool.Preferred.{remember}
use global_egress.Pool.Preferred.Ring.{IsRing, remember-IsRing}
use global_egress.Pool.Budget.{reserve_tunnel_open, commit_tunnel_open}
use global_egress.Pool.Budget.Window.{Meter, Tick, Ticks, contacts, Ticks-budget}
use global_egress.Examples.Data.{japan, sweden, japan_ip, sweden_ip, the_pool}

-- Two contacts within a window, with a third refused in between.
abbrev idle_meter : Meter
idle_meter = record { pool = the_pool; history = []; clock = 0 }

abbrev reserved_meter : Meter
reserved_meter = record idle_meter { pool = (reserve_tunnel_open 10 the_pool).0; clock = 10 }

abbrev contacted_meter : Meter
contacted_meter = record {
  pool = commit_tunnel_open 12 reserved_meter.pool;
  history = 12 ∷ [];
  clock = 12;
}

to_contacted : Ticks idle_meter contacted_meter
unfolding reserve_tunnel_open
to_contacted =
    Ticks.next (Ticks.next Ticks.here (Tick.reserves 10 (omega arith)))
      (Tick.contacts_relay 12 (omega arith) (omega arith))

Ticks-budget_example :
    contacts contacted_meter.pool.opts.new_tunnel_window 20 contacted_meter.history
      + contacted_meter.pool.pending_tunnel_opens
    ≤ contacted_meter.pool.opts.new_tunnel_budget
Ticks-budget_example = Ticks-budget 20 (omega arith) refl refl refl to_contacted (omega arith)

-- A batch, its first reservation, and its release.
fresh-IsAttributed : IsAttributed (new_batch 0 800)
unfolding new_batch still_used
fresh-IsAttributed ip h = cc

abbrev one_burn : Batch
one_burn = reserve japan japan_ip 800 (new_batch 0 800)

one_burn-IsAttributed : IsAttributed one_burn
one_burn-IsAttributed =
    (reserve-burns japan japan_ip 800 (new_batch 0 800) fresh-IsAttributed).attributed

reserve-burns_example : Burned japan japan_ip 800 (new_batch 0 800) one_burn
reserve-burns_example = reserve-burns japan japan_ip 800 (new_batch 0 800) fresh-IsAttributed

release-frees_example : Freed japan one_burn (release japan one_burn)
release-frees_example = release-frees japan one_burn one_burn-IsAttributed

abbrev one_exit : List PreferredExit
one_exit = record { slot_id = japan; public_ip = japan_ip; expires_at = 500 } ∷ []

one_exit-IsRing : IsRing 2 one_exit
one_exit-IsRing = record { bounded = omega arith; distinct = (λ m. m, tt) }

remember-IsRing_example :
    IsRing 2 (remember sweden sweden_ip 700 2 one_exit)
    × In
        (record { slot_id = sweden; public_ip = sweden_ip; expires_at = 700 })
        (remember sweden sweden_ip 700 2 one_exit)
remember-IsRing_example = remember-IsRing sweden sweden_ip 700 2 one_exit one_exit-IsRing

-- An exit in Sweden, with an entry in Japan and one in Germany.
abbrev an_entry : Bytes → Bytes → EntryState
an_entry id country = record {
  id = id;
  country = country;
  tunnel = false;
  opening = false;
  failures = 0;
  last_error = none;
  disabled_until = 0;
  opened_at = 0;
  bytes_sent = 0;
  bytes_received = 0;
  latency = [];
  samples = [];
}

abbrev far_entry : EntryState
far_entry = an_entry (codes "e1") (codes "jp")

abbrev near_entry : EntryState
near_entry = an_entry (codes "e2") (codes "de")

abbrev relay_pool : Pool
relay_pool = record the_pool { entries = far_entry ∷ near_entry ∷ [] }

the_order : ordered_entries false (codes "se") 0 relay_pool ≡ near_entry ∷ far_entry ∷ []
unfolding ordered_entries
the_order = refl

ordered_entries-best_example : score near_entry (codes "se") ≤ score far_entry (codes "se")
ordered_entries-best_example =
    ordered_entries-best relay_pool (codes "se") 0 near_entry (far_entry ∷ []) far_entry the_order
      (inl refl) (omega arith)
