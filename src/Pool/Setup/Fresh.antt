-- ===== src/Pool/Setup/Fresh.antt =====
-- What NewWithSpecs starts from, and what every run from there keeps.
use global_egress.Shared.{
  ◌+◌, ◌≡◌, refl, ap, sym, subst, ◌&&◌, List, [], ◌∷◌, All, Bool-cases, inl, inr, In, ◌⊎◌, any,
  Result, ok, err, ◌>>=◌, is_empty, length, bytes_leb,
}
use global_egress.Pool.State.{Spec, Options, SlotState, Pool}
use global_egress.Pool.Loads.{Load, loads}
use global_egress.Pool.System.{System, Reach}
use global_egress.Pool.System.Limits.{Capped, IsIdle, Reach-limits}
use global_egress.Pool.Setup.{
  WireGuardSlot, SetupError, apply_defaults, new_slot, is_relay, insert_slot, sort_slots, has_id,
  add_slots, new_pool, new_with_specs,
}
use global_egress.Pool.Setup.Ascending.{
  IsAscending, HasOwnIds, All-sort_slots, sort_slots-IsAscending, has_id-All,
}

In-insert_slot :
    (s : SlotState) (ts : List SlotState) (u : SlotState)
    → (u ≡ s) ⊎ In u ts
    → In u (insert_slot s ts)
unfolding insert_slot
In-insert_slot s [] u m = m
In-insert_slot s (t ∷ ts) u m = elim (Bool-cases (bytes_leb s.spec.id t.spec.id)) [
  | inl e ↦ rw e m
  | inr e ↦ rw e (elim m [
    | inl new ↦ inr (In-insert_slot s ts u (inl new))
    | inr (inl old) ↦ inl old
    | inr (inr old) ↦ inr (In-insert_slot s ts u (inr old))
  ])
]

pub In-sort_slots : (ss : List SlotState) (u : SlotState) → In u ss → In u (sort_slots ss)
unfolding sort_slots
In-sort_slots [] u m = m
In-sort_slots (s ∷ ss) u (inl e) = In-insert_slot s (sort_slots ss) u (inl e)
In-sort_slots (s ∷ ss) u (inr m) = In-insert_slot s (sort_slots ss) u (inr (In-sort_slots ss u m))

abbrev IsUnused : SlotState → Type 0
IsUnused s = s ≡ new_slot s.spec

-- The states that the loop builds: one for each spec, none of which shares its ID.
abbrev IsBuilt : List Spec → List SlotState → Result SetupError (List SlotState) → Type 0
IsBuilt specs slots (err e) = Unit
IsBuilt specs slots (ok out) =
    HasOwnIds out
    × All IsUnused out
    × ((spec : Spec) → In spec specs → In (new_slot spec) out)
    × ((u : SlotState) → In u slots → In u out)

IsBuilt-cons :
    (spec : Spec) (specs : List Spec) (slots : List SlotState)
    (r : Result SetupError (List SlotState))
    → IsBuilt specs (new_slot spec ∷ slots) r
    → IsBuilt (spec ∷ specs) slots r
IsBuilt-cons spec specs slots (err e) b = tt
IsBuilt-cons spec specs slots (ok out) (own, unused, all, kept) =
    (own, unused, found, λ u m. kept u (inr m))
  where
    found : (other : Spec) → In other (spec ∷ specs) → In (new_slot other) out
    found other (inl e) = subst (λ x. In (new_slot x) out) (sym e) (kept (new_slot spec) (inl refl))
    found other (inr m) = all other m

add_slots-IsBuilt :
    (specs : List Spec) (slots : List SlotState)
    → HasOwnIds slots
    → All IsUnused slots
    → IsBuilt specs slots (add_slots specs slots)
unfolding add_slots
add_slots-IsBuilt [] slots own unused = (own, unused, λ spec m. absurd m, λ u m. m)
add_slots-IsBuilt (spec ∷ specs) slots own unused =
    let rec = add_slots-IsBuilt specs (new_slot spec ∷ slots) in
    elim (Bool-cases (has_id spec.id slots)) [
      | inl e ↦ rw e tt
      | inr e ↦
          rw e
            (IsBuilt-cons spec specs slots _ (rec (has_id-All spec.id slots e, own) (refl, unused)))
    ]

abbrev IsQuietLoad : Load → Type 0
IsQuietLoad l = (l.leases ≡ 0) × (l.pending ≡ 0)

loads-unused : (ss : List SlotState) → All IsUnused ss → All IsQuietLoad (loads ss)
loads-unused [] h = tt
loads-unused (s ∷ ss) (e, h) =
    ((ap (λ x. x.leases) e, ap (λ x. x.pending_leases) e), loads-unused ss h)

-- A pool at its start.
abbrev pub starting : Pool → System
starting p = record { pool = p; waiting = []; live = [] }

-- What a new pool is.
pub record IsNewPool (specs : List Spec) (opts : Options) (p : Pool) : Type 0 where
  pub ascending : IsAscending p.slots
  pub complete : (spec : Spec) → In spec specs → In (new_slot spec) p.slots
  pub idle : IsIdle (starting p)
  pub options : p.opts ≡ apply_defaults opts

abbrev IsOutcome : List Spec → Options → Result SetupError Pool → Type 0
IsOutcome specs opts (err e) = Unit
IsOutcome specs opts (ok p) = IsNewPool specs opts p

new_with_specs-IsOutcome :
    (specs : List Spec) (entries : List WireGuardSlot) (opts : Options)
    → IsOutcome specs opts (new_with_specs specs entries opts)
unfolding new_with_specs
new_with_specs-IsOutcome specs entries opts = elim (Bool-cases (is_empty specs)) [
  | inl e ↦ rw e tt
  | inr e ↦ elim (Bool-cases (any is_relay specs && is_empty entries)) [
    | inl f ↦ rw (e, f) tt
    | inr f ↦ rw (e, f) (built (add_slots specs []) (add_slots-IsBuilt specs [] tt tt))
  ]
]
  where
    built :
        (r : Result SetupError (List SlotState))
        → IsBuilt specs [] r
        → IsOutcome specs opts
            (r >>= λ slots. ok (new_pool (apply_defaults opts) (sort_slots slots) entries))
    built (err e) b = tt
    built (ok slots) (own, unused, all, kept) = record {
      ascending = sort_slots-IsAscending slots own;
      complete = λ spec m. In-sort_slots slots (new_slot spec) (all spec m);
      idle = record {
        no_waiting = refl;
        no_live = refl;
        leased = refl;
        pending = refl;
        slots = loads-unused (sort_slots slots) (All-sort_slots IsUnused slots unused);
      };
      options = refl;
    }

-- When NewWithSpecs succeeds, its pool holds an unused slot for every spec, its slots stand in the
-- order of their IDs, of which none occurs twice, and its options are those given with their defaults;
-- and whatever requests come, in whatever order their steps fall, the connections held and reserved
-- never exceed `MaxConcurrentConns` (0 is no limit), and are 0 again when no request is left.
pub new_with_specs-Reach :
    (specs : List Spec) (entries : List WireGuardSlot) (opts : Options) (p : Pool) (t : System)
    → new_with_specs specs entries opts ≡ ok p
    → Reach (starting p) t
    → IsNewPool specs opts p
      × Capped t.pool.opts.max_concurrent_conns (t.pool.leased + t.pool.pending_leases)
      × (t.pool.leased ≡ length t.live)
      × (t.pool.pending_leases ≡ length t.waiting)
new_with_specs-Reach specs entries opts p t h reach =
    let fresh = subst (IsOutcome specs opts) h (new_with_specs-IsOutcome specs entries opts) in
    let (capped, _, leased, pending) = Reach-limits fresh.idle reach in
    (fresh, capped, leased, pending)
