-- ===== src/Pool/Pick/Stages.antt =====
-- Each stage of `pick`, from a base pool whose slots and batches the stages before it kept.
use global_egress.Shared.{
  ℕ, ◌<◌, ◌≡◌, refl, sym, ap, subst, ◌∙◌, List, [], ◌∷◌, Bytes, bytes_eq, if◌then◌else◌, arith,
  Bool-cases, inl, inr, Option, none, some, addr_eq, Result, ok, err, lookup, delete, Map, Bool, In,
  In-filter, filter, is_empty, true, false, ltb, ltb→lt, ◌||◌, not,
}
use global_egress.Policy.{Policy}
use global_egress.Pool.State.{SlotState, Pool, Error, Batch, Reservation, PreferredExit}
use global_egress.Pool.Preferred.{prune}
use global_egress.Pool.Eligible.{without_batch, ready}
use global_egress.Pool.Eligible.Admits.{admits}
use global_egress.Pool.Budget.{tunnel_budget_available, reserve_capacity}
use global_egress.Pool.Reserve.{reserve_acquisition}
use global_egress.Pool.Pick.{
  Picked, Preference, take, pick_ready, oldest_burn, recycle, recycle_in, pick_recycled,
  pick_opening, pick_among, pick_any, take_best, take_preferred, pick_preferred, pick_fresh,
}
use global_egress.Pool.Pick.Outcome.{
  Reserves, ReservationOutcome, reserve_acquisition-Outcome, Outcome-after,
}
use global_egress.Pool.Pick.Burned.{FoundBy, oldest_burn-FoundBy}
use global_egress.Pool.Pick.Choice.{
  Chosen, Keeps, Keeps-Frame, admits-Keeps, candidates-filter, candidates-Agree, pick_ready-In,
  burn_of, IsBurnedExit, oldest_burn-IsBurnedExit, IsPreference, weigh_all-IsPreference,
}
use global_egress.Pool.Loads.{Frame, Frame-trans}
use global_egress.Pool.Loads.Frames.{tunnel_budget-Frame, reserve_capacity-Frame}

-- A selection that succeeds reserves one connection at a slot that it may choose; one that fails
-- leaves every connection as it was.
abbrev pub PickOutcome : Pool → Policy → Bytes → ℕ → Pool → Result Error Picked → Type 0
PickOutcome p pol target now q (err e) = Frame p q
PickOutcome p pol target now q (ok x) =
    Reserves p q x.slot.spec.id x.reservation × Chosen p pol target now x.slot

abbrev pub Outcome : Pool → Policy → Bytes → ℕ → Pool × Result Error Picked → Type 0
Outcome p pol target now out = PickOutcome p pol target now out.0 out.1

module _ (p : Pool) (pol : Policy) (target : Bytes) (now : ℕ) where
  pub take-Outcome :
      (s : SlotState) (sticky : Bool) (q : Pool)
      → Frame p q
      → Chosen p pol target now s
      → Outcome p pol target now (take pol s sticky now q)
  unfolding take
  take-Outcome s sticky q f c = split (reserve_acquisition pol s now q).1 refl
    where
      reserved :
          ReservationOutcome p s.spec.id
            (reserve_acquisition pol s now q).0
            (reserve_acquisition pol s now q).1
      reserved = Outcome-after s.spec.id _ _ f (reserve_acquisition-Outcome pol s now q)

      split :
          (r : Result Error Reservation)
          → (reserve_acquisition pol s now q).1 ≡ r
          → Outcome p pol target now (take pol s sticky now q)
      split (err e) h = rw (h, take) (rw h at reserved)
      split (ok r) h = rw (h, take) ((rw h at reserved), c)

  abbrev filtered : List SlotState
  filtered = filter (λ s. admits p s pol target now) p.slots

  -- Whether the base admits what the stage's own pool admits.
  filter-Keeps :
      (q : Pool) → Keeps now p q → filter (λ s. admits q s pol target now) q.slots ≡ filtered
  filter-Keeps q k = all q.slots ∙ ap (filter (λ s. admits p s pol target now)) k.slots
    where
      all :
          (ss : List SlotState)
          → filter (λ s. admits q s pol target now) ss ≡ filter (λ s. admits p s pol target now) ss
      all = elim [ [] ↦ refl | s ∷ (ss → ih) ↦ rw (admits-Keeps s pol target k, ih) refl ]

  Chosen-filtered : (s : SlotState) → In s filtered → Chosen p pol target now s
  Chosen-filtered s m =
      let (i, a) = In-filter (λ s. admits p s pol target now) p.slots m in (i, inl a)

  pick_ready-Chosen :
      (s : SlotState) (ss xs : List SlotState) (draw : ℕ)
      → xs ≡ filtered
      → ((t : SlotState) → In t (s ∷ ss) → In t xs)
      → Chosen p pol target now (pick_ready s ss draw)
  pick_ready-Chosen s ss xs draw e sub =
      let m = sub (pick_ready s ss draw) (pick_ready-In s ss draw) in
      Chosen-filtered _ (subst (In (pick_ready s ss draw)) e m)

  -- The slot that the recycling finds is one that it may.
  abbrev FoundOutcome : Pool → Option SlotState → Type 0
  FoundOutcome q none = Frame p q
  FoundOutcome q (some s) = Frame p q × Chosen p pol target now s

  abbrev RecycleOutcome : Pool × Option SlotState → Type 0
  RecycleOutcome out = FoundOutcome out.0 out.1

  recycle_in-Outcome :
      (q : Pool) (b : Batch)
      → Keeps now p q
      → filtered ≡ []
      → pol.recycle_batch ≡ true
      → lookup pol.unique_batch p.batches ≡ some b
      → now < b.expires_at
      → RecycleOutcome (recycle_in b pol target now q)
  unfolding recycle_in
  recycle_in-Outcome q b k dry wanted found live =
      split (oldest_burn q b pol target now q.ip_cooldowns q.slots none).0 refl
    where
      good :
          IsBurnedExit q b pol target now
            (oldest_burn q b pol target now q.ip_cooldowns q.slots none).0
      good =
          oldest_burn-IsBurnedExit q b pol target now q.ip_cooldowns q.slots none (λ t a. refl)
            (λ s m. m) tt

      frame : Frame p q
      frame = Keeps-Frame k

      split :
          (o : Option (SlotState × ℕ))
          → (oldest_burn q b pol target now q.ip_cooldowns q.slots none).0 ≡ o
          → RecycleOutcome (recycle_in b pol target now q)
      split none e =
          rw (e, recycle_in)
            (record {
              opts = frame.opts;
              leased = frame.leased;
              pending = frame.pending;
              loads = frame.loads;
            })
      split (some (s, seq)) e =
          let (m, a, burned, seq_of) = subst (IsBurnedExit q b pol target now) e good in
          rw (e, recycle_in)
            (
              record {
                opts = frame.opts;
                leased = frame.leased;
                pending = frame.pending;
                loads = frame.loads;
              },
              (
                subst (In s) k.slots m,
                inr (record {
                  wanted = wanted;
                  dry = dry;
                  admitted = sym (admits-Keeps s (without_batch pol) target k) ∙ a;
                  batch = b;
                  found = found;
                  live = live;
                  burned = burned;
                  oldest = λ t i admitted first. omega (
                    arith,
                    seq_of,
                    subst (FoundBy (burn_of b t)) e (
                        oldest_burn-FoundBy q b pol target now q.ip_cooldowns q.slots none t
                          (λ u ip. refl) (subst (In t) (sym k.slots) i)
                          (admits-Keeps t (without_batch pol) target k ∙ admitted) first),
                  );
                }),
              ),
            )

  recycle_live-Outcome :
      (q : Pool) (b : Batch)
      → Keeps now p q
      → filtered ≡ []
      → pol.recycle_batch ≡ true
      → lookup pol.unique_batch q.batches ≡ some b
      → RecycleOutcome (if ltb now b.expires_at then recycle_in b pol target now q else (q, none))
  recycle_live-Outcome q b k dry wanted found = elim (Bool-cases (ltb now b.expires_at)) [
    | inl live ↦ rw live (
        recycle_in-Outcome q b k dry wanted
          (subst (λ m. lookup pol.unique_batch m ≡ some b) k.batches found)
          (ltb→lt now b.expires_at live))
    | inr over ↦ rw over (Keeps-Frame k)
  ]

  recycle-Outcome :
      (q : Pool) → Keeps now p q → filtered ≡ [] → RecycleOutcome (recycle pol target now q)
  unfolding recycle
  recycle-Outcome q k dry = elim (Bool-cases (not pol.recycle_batch || is_empty pol.unique_batch)) [
    | inl off ↦ rw (off, recycle) (Keeps-Frame k)
    | inr on ↦ found (lookup pol.unique_batch q.batches) refl on (ground arith)
  ]
    where
      found :
          (o : Option Batch)
          → lookup pol.unique_batch q.batches ≡ o
          → (not pol.recycle_batch || is_empty pol.unique_batch) ≡ false
          → pol.recycle_batch ≡ true
          → RecycleOutcome (recycle pol target now q)
      found none e test on = rw (e, test, recycle) (Keeps-Frame k)
      found (some b) e test on = rw (e, test, recycle) (recycle_live-Outcome q b k dry on e)

  pick_recycled-Outcome :
      (q : Pool)
      → Keeps now p q
      → filtered ≡ []
      → Outcome p pol target now (pick_recycled pol target now q)
  unfolding pick_recycled
  pick_recycled-Outcome q k dry = split (recycle pol target now q).1 refl (recycle-Outcome q k dry)
    where
      split :
          (o : Option SlotState)
          → (recycle pol target now q).1 ≡ o
          → FoundOutcome (recycle pol target now q).0 o
          → Outcome p pol target now (pick_recycled pol target now q)
      split none h f = rw (h, pick_recycled) f
      split (some s) h (f, c) = rw (h, pick_recycled) (take-Outcome s false _ f c)

  pick_opening-Outcome :
      (q : Pool) (s : SlotState) (ss : List SlotState) (draw : ℕ)
      → Frame p q
      → filtered ≡ s ∷ ss
      → Outcome p pol target now (pick_opening pol s ss now draw q)
  unfolding pick_opening
  pick_opening-Outcome q s ss draw f found = elim (Bool-cases budget.1) [
    | inr spent ↦ rw (spent, pick_opening) charged
    | inl left ↦ split room.1 refl left
  ]
    where
      budget : Pool × Bool
      budget = tunnel_budget_available now q

      room : Pool × Result Error (Unit {0})
      room = reserve_capacity budget.0

      charged : Frame p budget.0
      charged = Frame-trans f (tunnel_budget-Frame now q)

      roomy : Frame p room.0
      roomy = Frame-trans charged (reserve_capacity-Frame budget.0)

      chosen : Chosen p pol target now (pick_ready s ss draw)
      chosen = pick_ready-Chosen s ss (s ∷ ss) draw (sym found) (λ t m. m)

      split :
          (r : Result Error (Unit {0}))
          → room.1 ≡ r
          → budget.1 ≡ true
          → Outcome p pol target now (pick_opening pol s ss now draw q)
      split (err e) h left = rw (left, h, pick_opening) roomy
      split (ok _) h left =
          rw (left, h, pick_opening) (take-Outcome (pick_ready s ss draw) false room.0 roomy chosen)

  ready_among :
      (q : Pool) (s : SlotState) (ss : List SlotState) (draw : ℕ) (rs : List SlotState)
      → Frame p q
      → filtered ≡ s ∷ ss
      → filter ready (s ∷ ss) ≡ rs
      → Outcome p pol target now (pick_among pol target now draw (s ∷ ss) q)
  unfolding pick_among
  ready_among q s ss draw [] f e none_ready =
      rw (none_ready, pick_among) (pick_opening-Outcome q s ss draw f e)
  ready_among q s ss draw (r ∷ rs) f e some_ready =
      rw (some_ready, pick_among)
        (take-Outcome (pick_ready r rs draw) false q f (
          pick_ready-Chosen r rs (s ∷ ss) draw (sym e)
            (λ t m. (In-filter ready (s ∷ ss) (subst (In t) (sym some_ready) m)).0)))

  pick_among-Outcome :
      (q : Pool) (draw : ℕ) (found : List SlotState)
      → Keeps now p q
      → found ≡ filtered
      → Outcome p pol target now (pick_among pol target now draw found q)
  unfolding pick_among
  pick_among-Outcome q draw [] k e = pick_recycled-Outcome q k (sym e)
  pick_among-Outcome q draw (s ∷ ss) k e =
      ready_among q s ss draw (filter ready (s ∷ ss)) (Keeps-Frame k) (sym e) refl

  pub pick_any-Outcome :
      (q : Pool) (draw : ℕ)
      → Keeps now p q
      → Outcome p pol target now (pick_any pol target now draw q)
  unfolding pick_any
  pick_any-Outcome q draw k =
      pick_among-Outcome _ draw _
        (record {
          opts = k.opts;
          leased = k.leased;
          pending = k.pending;
          slots = k.slots;
          batches = k.batches;
          agree = λ t a. candidates-Agree q pol target now q.ip_cooldowns q.slots t a ∙ k.agree t a;
        })
        (candidates-filter q pol target now q.ip_cooldowns q.slots (λ t a. refl) ∙ filter-Keeps q k)

  -- A preferred slot may be absent.
  abbrev MaybeOutcome : Pool → Result Error (Option Picked) → Type 0
  MaybeOutcome q (err e) = Frame p q
  MaybeOutcome q (ok none) = Keeps now p q
  MaybeOutcome q (ok (some x)) = PickOutcome p pol target now q (ok x)

  take_best-Outcome :
      (s : SlotState) (q : Pool)
      → Frame p q
      → Chosen p pol target now s
      → let out = take_best pol s now q in MaybeOutcome out.0 out.1
  unfolding take_best
  take_best-Outcome s q f c = split (take pol s false now q).1 refl (take-Outcome s false q f c)
    where
      split :
          (r : Result Error Picked)
          → (take pol s false now q).1 ≡ r
          → PickOutcome p pol target now (take pol s false now q).0 r
          → let out = take_best pol s now q in MaybeOutcome out.0 out.1
      split (err e) h o = rw (h, take_best) o
      split (ok x) h o = rw (h, take_best) o

  take_preferred-Outcome :
      (q : Pool) (f : Preference)
      → Keeps now p q
      → IsPreference q pol target now f
      → let out = take_preferred pol target now f q in MaybeOutcome out.0 out.1
  unfolding take_preferred
  take_preferred-Outcome q f k good = elim (Bool-cases (is_empty f.kept)) [
    | inl gone ↦ rw (gone, take_preferred) (keeps (delete target q.preferred))
    | inr some_kept ↦ split f.best refl some_kept
  ]
    where
      keeps :
          (preferred : Map Bytes (List PreferredExit))
          → Keeps now p (record q { ip_cooldowns = f.cool; preferred = preferred })
      keeps preferred = record {
        opts = k.opts;
        leased = k.leased;
        pending = k.pending;
        slots = k.slots;
        batches = k.batches;
        agree = λ t a. good.agree t a ∙ k.agree t a;
      }

      split :
          (o : Option SlotState)
          → f.best ≡ o
          → is_empty f.kept ≡ false
          → let out = take_preferred pol target now f q in MaybeOutcome out.0 out.1
      split none e some_kept = rw (some_kept, e, take_preferred) (keeps _)
      split (some s) e some_kept =
          let (m, a) = good.chosen s e in
          rw (some_kept, e, take_preferred)
            (take_best-Outcome s _ (Keeps-Frame (keeps _))
              (subst (In s) k.slots m, inl (sym (admits-Keeps s pol target k) ∙ a)))

  pick_preferred-Outcome :
      (q : Pool)
      → Keeps now p q
      → let out = pick_preferred pol target now q in MaybeOutcome out.0 out.1
  unfolding pick_preferred
  pick_preferred-Outcome q k = split (lookup target q.preferred) refl
    where
      split :
          (o : Option (List PreferredExit))
          → lookup target q.preferred ≡ o
          → let out = pick_preferred pol target now q in MaybeOutcome out.0 out.1
      split none e = rw (e, pick_preferred) k
      split (some set) e =
          rw (e, pick_preferred)
            (take_preferred-Outcome q _ k (
              weigh_all-IsPreference q pol target now (prune now set) _
                (record { agree = λ t a. refl; chosen = λ s h. cc })))

  pub pick_fresh-Outcome :
      (q : Pool) (draw : ℕ)
      → Keeps now p q
      → Outcome p pol target now (pick_fresh pol target now draw q)
  unfolding pick_fresh
  pick_fresh-Outcome q draw k = elim (Bool-cases (is_empty target)) [
    | inl nowhere ↦ rw (nowhere, pick_fresh) (pick_any-Outcome q draw k)
    | inr somewhere ↦
        split (pick_preferred pol target now q).1 refl (pick_preferred-Outcome q k) somewhere
  ]
    where
      split :
          (r : Result Error (Option Picked))
          → (pick_preferred pol target now q).1 ≡ r
          → MaybeOutcome (pick_preferred pol target now q).0 r
          → is_empty target ≡ false
          → Outcome p pol target now (pick_fresh pol target now draw q)
      split (err e) h o somewhere = rw (somewhere, h, pick_fresh) o
      split (ok none) h o somewhere = rw (somewhere, h, pick_fresh) (pick_any-Outcome _ draw o)
      split (ok (some x)) h o somewhere = rw (somewhere, h, pick_fresh) o
