-- ===== src/Pool/System/Limits.antt =====
-- The limits on connections, whatever the order of the steps.
use global_egress.Shared.{
  ℕ, suc, ◌+◌, ◌-◌, ◌≤◌, ◌<◌, ◌≡◌, ◌⊎◌, refl, sym, ap, subst, ◌∙◌, List, [], ◌∷◌, ◌++◌, Bytes,
  bytes_eq, bytes_beq_iff, arith, inl, inr, length, length-append, All, All-In, All-map, In, false,
  ok, err,
}
use global_egress.Policy.{Policy}
use global_egress.Pool.State.{SlotState, Pool, Error}
use global_egress.Pool.Cooldowns.{expire}
use global_egress.Pool.Eligible.{without_batch}
use global_egress.Pool.Eligible.Serves.{Serves}
use global_egress.Pool.Pick.Choice.{Recycled}
use global_egress.Pool.Loads.{Load, Frame, Frame-trans, loads, load_of, at_id}
use global_egress.Pool.Loads.Frames.{
  expire-Frame, note_failure-Frame, report-Frame, prefer-Frame, rotate-Frame, set_public_ip-Frame,
}
use global_egress.Pool.Pick.{Picked, pick, scope_of}
use global_egress.Pool.Pick.Outcome.{Reserves, bump_pending}
use global_egress.Pool.Pick.Stages.{PickOutcome}
use global_egress.Pool.Pick.Whole.{pick-Admitted, pick-Outcome, pick-Serves}
use global_egress.Pool.Reserve.{rollback_acquisition}
use global_egress.Pool.Acquire.{Lease, commit, lease_of, release_lease}
use global_egress.Pool.System.{
  System, with_pool, Step, picks, refuses, commits, gives_up, notes_failure, drops_session,
  releases, reports, prefers, rotates, measures, Reach, here, next,
}
use global_egress.Pool.System.Tally.{
  waits_at, lives_at, waiting_at, live_at, count_if-append, IsTallied, IsUnsettled, to_lease,
  commit-Commits, rollback_acquisition-Settles, drop_session-Frame, release_lease-Ends,
}

abbrev pub IsOpen : Lease → Type 0
IsOpen l = l.released ≡ false

abbrev pub Capped : ℕ → ℕ → Type 0
Capped limit n = (limit ≡ 0) ⊎ (n ≤ limit)

-- The counters of the pool and of its slots are those of the requests in flight, and both limits on
-- connections are kept; a limit of 0 is none.
pub record Inv (s : System) : Type 0 where
  pub tallied : All (IsTallied s.waiting s.live) (loads s.pool.slots)
  pub leased : s.pool.leased ≡ length s.live
  pub pending : s.pool.pending_leases ≡ length s.waiting
  pub unsettled : All IsUnsettled s.waiting
  pub unreleased : All IsOpen s.live
  pub within : Capped s.pool.opts.max_concurrent_conns (length s.live + length s.waiting)
  pub spread :
      (id : Bytes)
      → Capped s.pool.opts.max_conns_per_exit (live_at id s.live + waiting_at id s.waiting)

with_pool-Inv : (s : System) (q : Pool) → Frame s.pool q → Inv s → Inv (with_pool s q)
with_pool-Inv s q f v = record {
  tallied = subst (All (IsTallied s.waiting s.live)) (sym f.loads) v.tallied;
  leased = f.leased ∙ v.leased;
  pending = f.pending ∙ v.pending;
  unsettled = v.unsettled;
  unreleased = v.unreleased;
  within =
      subst (λ o. Capped o.max_concurrent_conns (length s.live + length s.waiting)) (sym f.opts)
        v.within;
  spread = λ id.
      subst (λ o. Capped o.max_conns_per_exit (live_at id s.live + waiting_at id s.waiting))
        (sym f.opts) (v.spread id);
}

-- One load, after a change at a slot and one more or one less request there.
tally_bump :
    (x : Picked) (waiting : List Picked) (live : List Lease) (l : Load)
    → IsTallied waiting live l
    → IsTallied (x ∷ waiting) live (at_id x.slot.spec.id bump_pending l)
unfolding at_id
tally_bump x waiting live l t =
    ground (arith, bytes_beq_iff l.id x.slot.spec.id, bytes_beq_iff x.slot.spec.id l.id)

tally_commit :
    (x : Picked) (lease : Lease) (before after : List Picked) (live : List Lease) (l : Load)
    → lease.slot ≡ x.slot.spec.id
    → IsTallied (before ++ x ∷ after) live l
    → IsTallied (before ++ after) (lease ∷ live) (at_id x.slot.spec.id to_lease l)
unfolding at_id
tally_commit x lease before after live l same t = ground (
  arith,
  bytes_beq_iff l.id x.slot.spec.id,
  bytes_beq_iff x.slot.spec.id l.id,
  bytes_beq_iff lease.slot l.id,
  count_if-append {0} (waits_at l.id) before (x ∷ after),
  count_if-append {0} (waits_at l.id) before after,
)

tally_drop :
    (x : Picked) (before after : List Picked) (live : List Lease) (l : Load)
    → IsTallied (before ++ x ∷ after) live l
    → IsTallied
        (before ++ after)
        live
        (at_id x.slot.spec.id (λ l. record l { pending = l.pending - 1 }) l)
unfolding at_id
tally_drop x before after live l t = ground (
  arith,
  bytes_beq_iff l.id x.slot.spec.id,
  bytes_beq_iff x.slot.spec.id l.id,
  count_if-append {0} (waits_at l.id) before (x ∷ after),
  count_if-append {0} (waits_at l.id) before after,
)

tally_end :
    (lease : Lease) (before after : List Lease) (waiting : List Picked) (l : Load)
    → IsTallied waiting (before ++ lease ∷ after) l
    → IsTallied waiting
        (before ++ after)
        (at_id lease.slot (λ l. record l { leases = l.leases - 1 }) l)
unfolding at_id
tally_end lease before after waiting l t = ground (
  arith,
  bytes_beq_iff l.id lease.slot,
  bytes_beq_iff lease.slot l.id,
  count_if-append {0} (lives_at l.id) before (lease ∷ after),
  count_if-append {0} (lives_at l.id) before after,
)

All-split {ℓ} :
    {A : Type 0} (P : A → Type ℓ) (before after : List A) (x : A)
    → All P (before ++ x ∷ after)
    → P x × All P (before ++ after)
All-split P [] after x (h, t) = (h, t)
All-split P (b ∷ before) after x (h, t) =
    let (hx, rest) = All-split P before after x t in (hx, (h, rest))

In-map : (s : SlotState) (ss : List SlotState) → In s ss → In (load_of s) (loads ss)
In-map s [] m = absurd m
In-map s (t ∷ ss) (inl e) = inl (ap load_of e)
In-map s (t ∷ ss) (inr m) = inr (In-map s ss m)

module _ (s : System) (v : Inv s) where
  module _ (pol : Policy) (target : Bytes) (now draw : ℕ) (x : Picked)
      (h : (pick pol target now draw s.pool).1 ≡ ok x) where
    abbrev expired : Pool
    expired = expire now s.pool

    abbrev picked : Pool
    picked = (pick pol target now draw s.pool).0

    frame : Frame s.pool expired
    frame = expire-Frame now s.pool

    reserves : Reserves expired picked x.slot.spec.id x.reservation
    reserves =
        (subst (PickOutcome expired pol (scope_of pol target) now picked) h
          (pick-Outcome s.pool pol target now draw)).0

    expired_tally : All (IsTallied s.waiting s.live) (loads expired.slots)
    expired_tally = subst (All (IsTallied s.waiting s.live)) (sym frame.loads) v.tallied

    slot_tally : IsTallied s.waiting s.live (load_of x.slot)
    slot_tally =
        All-In (IsTallied s.waiting s.live) (loads expired.slots) expired_tally
          (In-map x.slot expired.slots (pick-Serves s.pool pol target now draw x h).0)

    slot_room :
        (s.pool.opts.max_conns_per_exit ≡ 0)
        ⊎ (x.slot.leases + x.slot.pending_leases < s.pool.opts.max_conns_per_exit)
    slot_room =
        subst
          (λ o.
            (o.max_conns_per_exit ≡ 0)
            ⊎ (x.slot.leases + x.slot.pending_leases < o.max_conns_per_exit))
          frame.opts (room (pick-Serves s.pool pol target now draw x h).1)
      where
        room :
            Serves expired x.slot pol (scope_of pol target) now
              ⊎ (Recycled expired pol (scope_of pol target) now x.slot
                  × Serves expired x.slot (without_batch pol) (scope_of pol target) now)
            → (expired.opts.max_conns_per_exit ≡ 0)
              ⊎ (x.slot.leases + x.slot.pending_leases < expired.opts.max_conns_per_exit)
        room (inl a) = a.room
        room (inr (_, a)) = a.room

    opts_kept : picked.opts ≡ s.pool.opts
    opts_kept = reserves.opts ∙ frame.opts

    spread_after :
        (id : Bytes)
        → Capped s.pool.opts.max_conns_per_exit (live_at id s.live + waiting_at id (x ∷ s.waiting))
    spread_after id =
        ground (arith, v.spread id, slot_room, slot_tally, bytes_beq_iff x.slot.spec.id id)

    within_after : Capped s.pool.opts.max_concurrent_conns (length s.live + length (x ∷ s.waiting))
    within_after = ground (
      arith,
      (pick-Admitted s.pool pol target now draw x h).room,
      frame.opts,
      frame.leased,
      frame.pending,
      v.leased,
      v.pending,
    )

    picks-Inv : Inv (record { pool = picked; waiting = x ∷ s.waiting; live = s.live })
    picks-Inv = record {
      tallied = subst (All (IsTallied (x ∷ s.waiting) s.live)) (sym reserves.loads) (
          All-map (IsTallied s.waiting s.live) (IsTallied (x ∷ s.waiting) s.live) _ _
            (tally_bump x s.waiting s.live) expired_tally);
      leased = reserves.leased ∙ frame.leased ∙ v.leased;
      pending = omega (arith, reserves.pending, frame.pending, v.pending);
      unsettled = ((reserves.slot, reserves.active), v.unsettled);
      unreleased = v.unreleased;
      within =
          subst (λ o. Capped o.max_concurrent_conns (length s.live + length (x ∷ s.waiting)))
            (sym opts_kept) within_after;
      spread = λ id.
          subst
            (λ o. Capped o.max_conns_per_exit (live_at id s.live + waiting_at id (x ∷ s.waiting)))
            (sym opts_kept) (spread_after id);
    }

  refuses-Inv :
      (pol : Policy) (target : Bytes) (now draw : ℕ) (e : Error)
      → (pick pol target now draw s.pool).1 ≡ err e
      → Inv (with_pool s (pick pol target now draw s.pool).0)
  refuses-Inv pol target now draw e h =
      with_pool-Inv s _
        (Frame-trans (expire-Frame now s.pool) (
          subst (PickOutcome (expire now s.pool) pol (scope_of pol target) now _) h
            (pick-Outcome s.pool pol target now draw)))
        v

  module _ (before after : List Picked) (x : Picked) (h : s.waiting ≡ before ++ x ∷ after) where
    abbrev IsTalliedAt : List Picked → Load → Type 0
    IsTalliedAt waiting = IsTallied waiting s.live

    tally_here : All (IsTalliedAt (before ++ x ∷ after)) (loads s.pool.slots)
    tally_here = subst (λ w. All (IsTalliedAt w) (loads s.pool.slots)) h v.tallied

    IsUnsettled-here : IsUnsettled x × All IsUnsettled (before ++ after)
    IsUnsettled-here = All-split IsUnsettled before after x (subst (All IsUnsettled) h v.unsettled)

    shorter : length s.waiting ≡ suc (length (before ++ after))
    shorter =
        ap length h
        ∙ omega (arith, length-append {0} before (x ∷ after), length-append {0} before after)

    fewer_at :
        (id : Bytes)
        → waiting_at id s.waiting ≡ waiting_at id (before ++ after) + waiting_at id (x ∷ [])
    fewer_at id =
        ap (waiting_at id) h
        ∙ omega (
          arith,
          count_if-append {0} (waits_at id) before (x ∷ after),
          count_if-append {0} (waits_at id) before after,
        )

    commits-Inv :
        (pol : Policy) (entry : Bytes) (now : ℕ)
        → Inv (record {
          pool = commit pol x now s.pool;
          waiting = before ++ after;
          live = lease_of pol x entry s.pool ∷ s.live;
        })
    unfolding lease_of
    commits-Inv pol entry now =
        let c = commit-Commits pol x now s.pool IsUnsettled-here.0 in
        record {
          tallied =
              subst (All (IsTallied (before ++ after) (lease_of pol x entry s.pool ∷ s.live)))
                (sym c.loads)
                (All-map _ _ _ _
                  (λ l. tally_commit x (lease_of pol x entry s.pool) before after s.live l refl)
                  tally_here);
          leased = omega (arith, c.leased, v.leased);
          pending = omega (arith, c.pending, v.pending, shorter);
          unsettled = IsUnsettled-here.1;
          unreleased = (refl, v.unreleased);
          within =
              subst
                (λ o.
                  Capped o.max_concurrent_conns (suc (length s.live) + length (before ++ after)))
                (sym c.opts) (ground (arith, v.within, shorter));
          spread = λ id.
              subst
                (λ o. Capped o.max_conns_per_exit (
                  live_at id (lease_of pol x entry s.pool ∷ s.live)
                  + waiting_at id (before ++ after)))
                (sym c.opts) (ground (arith, v.spread id, fewer_at id));
        }

    gives_up-Inv : Inv (record {
      pool = rollback_acquisition x.reservation s.pool;
      waiting = before ++ after;
      live = s.live;
    })
    gives_up-Inv =
        let c = rollback_acquisition-Settles x s.pool IsUnsettled-here.0 in
        record {
          tallied =
              subst (All (IsTalliedAt (before ++ after))) (sym c.loads)
                (All-map _ _ _ _ (tally_drop x before after s.live) tally_here);
          leased = c.leased ∙ v.leased;
          pending = omega (arith, c.pending, v.pending, shorter);
          unsettled = IsUnsettled-here.1;
          unreleased = v.unreleased;
          within =
              subst (λ o. Capped o.max_concurrent_conns (length s.live + length (before ++ after)))
                (sym c.opts) (ground (arith, v.within, shorter));
          spread = λ id.
              subst
                (λ o.
                  Capped o.max_conns_per_exit (live_at id s.live + waiting_at id (before ++ after)))
                (sym c.opts) (ground (arith, v.spread id, fewer_at id));
        }

  module _ (before after : List Lease) (l : Lease) (h : s.live ≡ before ++ l ∷ after) where
    releases-Inv :
        (now : ℕ)
        → Inv (record {
          pool = (release_lease l now s.pool).0;
          waiting = s.waiting;
          live = before ++ after;
        })
    releases-Inv now =
        let opened = All-split IsOpen before after l (subst (All IsOpen) h v.unreleased) in
        let c = release_lease-Ends l now s.pool opened.0 in
        record {
          tallied = subst (All (IsTallied s.waiting (before ++ after))) (sym c.loads) (
              All-map _ _ _ _ (tally_end l before after s.waiting)
                (subst (λ w. All (IsTallied s.waiting w) (loads s.pool.slots)) h v.tallied));
          leased = omega (arith, c.leased, v.leased, shorter_live);
          pending = c.pending ∙ v.pending;
          unsettled = v.unsettled;
          unreleased = opened.1;
          within =
              subst
                (λ o. Capped o.max_concurrent_conns (length (before ++ after) + length s.waiting))
                (sym c.opts) (ground (arith, v.within, shorter_live));
          spread = λ id.
              subst
                (λ o.
                  Capped o.max_conns_per_exit
                    (live_at id (before ++ after) + waiting_at id s.waiting))
                (sym c.opts) (ground (arith, v.spread id, fewer_live id));
        }
      where
        shorter_live : length s.live ≡ suc (length (before ++ after))
        shorter_live =
            ap length h
            ∙ omega (arith, length-append {0} before (l ∷ after), length-append {0} before after)

        fewer_live :
            (id : Bytes) → live_at id s.live ≡ live_at id (before ++ after) + live_at id (l ∷ [])
        fewer_live id =
            ap (live_at id) h
            ∙ omega (
              arith,
              count_if-append {0} (lives_at id) before (l ∷ after),
              count_if-append {0} (lives_at id) before after,
            )

-- Every step of the system, whichever request makes it, keeps the counters of the pool and of its
-- slots equal to the requests in flight, and both limits on connections.
pub Step-Inv : {s t : System} → Step s t → Inv s → Inv t
Step-Inv {s} (picks pol target now draw x h) v = picks-Inv s v pol target now draw x h
Step-Inv {s} (refuses pol target now draw e h) v = refuses-Inv s v pol target now draw e h
Step-Inv {s} (commits pol entry now before after x h) v =
    commits-Inv s v before after x h pol entry now
Step-Inv {s} (gives_up before after x h) v = gives_up-Inv s v before after x h
Step-Inv {s} (notes_failure id e now) v = with_pool-Inv s _ (note_failure-Frame id e now s.pool) v
Step-Inv {s} (drops_session name) v = with_pool-Inv s _ (drop_session-Frame name s.pool) v
Step-Inv {s} (releases now before after l h) v = releases-Inv s v before after l h now
Step-Inv {s} (reports r now) v = with_pool-Inv s _ (report-Frame r now s.pool) v
Step-Inv {s} (prefers r now) v = with_pool-Inv s _ (prefer-Frame r now s.pool) v
Step-Inv {s} (rotates name) v = with_pool-Inv s _ (rotate-Frame name s.pool) v
Step-Inv {s} (measures slot ip at now) v =
    with_pool-Inv s _ (set_public_ip-Frame slot ip at now s.pool) v

pub Reach-Inv : {s t : System} → Inv s → Reach s t → Inv t
Reach-Inv v here = v
Reach-Inv v (next r st) = Step-Inv st (Reach-Inv v r)

-- No request is in flight, and no counter says otherwise.
pub record IsIdle (s : System) : Type 0 where
  pub no_waiting : s.waiting ≡ []
  pub no_live : s.live ≡ []
  pub leased : s.pool.leased ≡ 0
  pub pending : s.pool.pending_leases ≡ 0
  pub slots : All (λ (l : Load). (l.leases ≡ 0) × (l.pending ≡ 0)) (loads s.pool.slots)

pub IsIdle-Inv : (s : System) → IsIdle s → Inv s
IsIdle-Inv s i = record {
  tallied =
      subst (λ live. All (IsTallied s.waiting live) (loads s.pool.slots)) (sym i.no_live)
        (subst (λ waiting. All (IsTallied waiting []) (loads s.pool.slots)) (sym i.no_waiting)
          i.slots);
  leased = i.leased ∙ sym (ap length i.no_live);
  pending = i.pending ∙ sym (ap length i.no_waiting);
  unsettled = subst (All IsUnsettled) (sym i.no_waiting) tt;
  unreleased = subst (All IsOpen) (sym i.no_live) tt;
  within = inr (omega (arith, ap length i.no_live, ap length i.no_waiting));
  spread = λ id. inr (omega (arith, ap (live_at id) i.no_live, ap (waiting_at id) i.no_waiting));
}

-- From a pool with no connection, whatever requests come and in whatever order their steps fall: the
-- connections held and reserved together are at most `MaxConcurrentConns`, those of each slot are at
-- most `MaxConnsPerExit` (0 is no limit), and the counters are exact: they count the leases that are
-- live and the requests that wait, so they are 0 again when none is left.
pub Reach-limits :
    {s t : System}
    → IsIdle s
    → Reach s t
    → let p = t.pool in
      Capped p.opts.max_concurrent_conns (p.leased + p.pending_leases)
      × ((u : SlotState)
          → In u p.slots
          → Capped p.opts.max_conns_per_exit (u.leases + u.pending_leases)
            × (u.leases ≡ live_at u.spec.id t.live)
            × (u.pending_leases ≡ waiting_at u.spec.id t.waiting))
      × (p.leased ≡ length t.live)
      × (p.pending_leases ≡ length t.waiting)
Reach-limits {s} {t} i r = (ground (arith, v), slots, v.leased, v.pending)
  where
    v : Inv t
    v = Reach-Inv (IsIdle-Inv s i) r

    slots :
        (u : SlotState)
        → In u t.pool.slots
        → Capped t.pool.opts.max_conns_per_exit (u.leases + u.pending_leases)
          × (u.leases ≡ live_at u.spec.id t.live)
          × (u.pending_leases ≡ waiting_at u.spec.id t.waiting)
    slots u m =
        let (a, b) =
          All-In (IsTallied t.waiting t.live) (loads t.pool.slots) v.tallied
            (In-map u t.pool.slots m) in
        (
          subst (Capped t.pool.opts.max_conns_per_exit) (omega (arith, a, b)) (v.spread u.spec.id),
          a,
          b,
        )
