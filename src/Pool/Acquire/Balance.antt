-- ===== src/Pool/Acquire/Balance.antt =====
-- What Acquire leaves on the counters of the pool, when no other request comes in between.
use global_egress.Shared.{
  ℕ, zero, suc, ◌+◌, ◌≡◌, refl, sym, subst, false, List, [], ◌∷◌, Option, none, some, Bytes, Result,
  ok, err, or_default, arith, All,
}
use global_egress.Policy.{Policy}
use global_egress.Pool.State.{Pool, Error}
use global_egress.Pool.Cooldowns.{expire}
use global_egress.Pool.Loads.Frames.{expire-Frame}
use global_egress.Pool.Pick.{Picked, pick, scope_of}
use global_egress.Pool.Pick.Stages.{PickOutcome}
use global_egress.Pool.Pick.Whole.{pick-Outcome}
use global_egress.Pool.Acquire.{
  Attempt, Lease, commit, lease_of, give_up, acquire_loop, first_attempts, acquire,
}
use global_egress.Pool.System.Tally.{IsUnsettled, commit-Commits, give_up-Settles}

-- The counters of two pools differ by this many leases and this many pending requests.
pub record Counts (p q : Pool) (leases pending : ℕ) : Type 0 where
  pub leased : q.leased ≡ p.leased + leases
  pub waiting : q.pending_leases ≡ p.pending_leases + pending

-- Nothing but the attempt itself touches the counters.
abbrev pub IsQuiet : Attempt → Type 0
IsQuiet a = (id : Bytes) (p : Pool) → Counts p (a.ensure_dialer id p).0 0 0

abbrev pub Picks : Pool → Pool → Result Error Picked → Type 0
Picks p q (ok x) = Counts p q 0 1 × IsUnsettled x
Picks p q (err e) = Counts p q 0 0

pick-Picks :
    (pol : Policy) (target : Bytes) (now draw : ℕ) (p : Pool) (r : Result Error Picked)
    → (pick pol target now draw p).1 ≡ r
    → Picks p (pick pol target now draw p).0 r
pick-Picks pol target now draw p r e = go r (
    subst (PickOutcome (expire now p) pol (scope_of pol target) now _) e
      (pick-Outcome p pol target now draw))
  where
    go :
        (r : Result Error Picked)
        → PickOutcome (expire now p) pol (scope_of pol target) now (pick pol target now draw p).0 r
        → Picks p (pick pol target now draw p).0 r
    go (ok x) (o, _) =
        let f = expire-Frame now p in
        (
          record {
            leased = omega (arith, o.leased, f.leased);
            waiting = omega (arith, o.pending, f.pending);
          },
          (o.slot, o.active),
        )
    go (err x) o =
        let f = expire-Frame now p in
        record {
          leased = omega (arith, o.leased, f.leased);
          waiting = omega (arith, o.pending, f.pending);
        }

-- A lease is one more on the counter, and a failure leaves no trace on it.
abbrev pub Acquires : Pool → Pool × Result Error Lease → Type 0
Acquires p (q, ok l) = Counts p q 1 0 × (l.released ≡ false)
Acquires p (q, err e) = Counts p q 0 0

Acquires-after :
    {p q : Pool} (out : Pool × Result Error Lease)
    → Counts p q 0 0
    → Acquires q out
    → Acquires p out
Acquires-after (r, ok l) c (d, open_lease) = (
  record {
    leased = omega (arith, c.leased, d.leased);
    waiting = omega (arith, c.waiting, d.waiting);
  },
  open_lease,
)
Acquires-after (r, err e) c d = record {
  leased = omega (arith, c.leased, d.leased);
  waiting = omega (arith, c.waiting, d.waiting);
}

module _ (a : Attempt) (rest : List Attempt) (pol : Policy) (target : Bytes) (last : Option Error)
    (p : Pool) where
  abbrev picked : Pool × Result Error Picked
  picked = pick pol target a.at a.draw p

  abbrev looped : Pool × Result Error Lease
  looped = acquire_loop (a ∷ rest) pol target last p

  loop_unpicked : (e : Error) → picked.1 ≡ err e → looped ≡ (picked.0, err (or_default last e))
  unfolding acquire_loop
  loop_unpicked e f = rw (f, acquire_loop) refl

  loop_committed :
      (x : Picked) (entry : Bytes)
      → picked.1 ≡ ok x
      → (a.ensure_dialer x.slot.spec.id picked.0).1 ≡ ok entry
      → let q = (a.ensure_dialer x.slot.spec.id picked.0).0 in
        looped ≡ (commit pol x a.settled_at q, ok (lease_of pol x entry q))
  unfolding acquire_loop
  loop_committed x entry f g = rw (f, g, acquire_loop) refl

  loop_gave_up :
      (x : Picked) (e : Error)
      → picked.1 ≡ ok x
      → (a.ensure_dialer x.slot.spec.id picked.0).1 ≡ err e
      → looped
        ≡ acquire_loop rest pol target
            (some e)
            (give_up pol x e a.settled_at (a.ensure_dialer x.slot.spec.id picked.0).0)
  unfolding acquire_loop
  loop_gave_up x e f g = rw (f, g, acquire_loop) refl

lease_of-released :
    (pol : Policy) (x : Picked) (entry : Bytes) (p : Pool)
    → (lease_of pol x entry p).released ≡ false
unfolding lease_of
lease_of-released pol x entry p = refl

acquire_loop-Acquires :
    (attempts : List Attempt) (pol : Policy) (target : Bytes) (last : Option Error) (p : Pool)
    → All IsQuiet attempts
    → Acquires p (acquire_loop attempts pol target last p)
acquire_loop-Acquires [] pol target none p quiet =
    unfold acquire_loop in record { leased = omega arith; waiting = omega arith }
acquire_loop-Acquires [] pol target (some e) p quiet =
    unfold acquire_loop in record { leased = omega arith; waiting = omega arith }
acquire_loop-Acquires (a ∷ rest) pol target last p (quiet, others) =
    split (picked a rest pol target last p).1 refl
      (λ last' q. acquire_loop-Acquires rest pol target last' q others)
  where
    split :
        (r : Result Error Picked)
        → (picked a rest pol target last p).1 ≡ r
        → ((last' : Option Error) (q : Pool) → Acquires q (acquire_loop rest pol target last' q))
        → Acquires p (looped a rest pol target last p)
    split (err e) f rec =
        subst (Acquires p) (sym (loop_unpicked a rest pol target last p e f))
          (pick-Picks pol target a.at a.draw p (err e) f)
    split (ok x) f rec = dialled (a.ensure_dialer x.slot.spec.id q).1 refl
      where
        q : Pool
        q = (picked a rest pol target last p).0

        q' : Pool
        q' = (a.ensure_dialer x.slot.spec.id q).0

        picks : Counts p q 0 1 × IsUnsettled x
        picks = pick-Picks pol target a.at a.draw p (ok x) f

        calm : Counts q q' 0 0
        calm = quiet x.slot.spec.id q

        dialled :
            (r : Result Error Bytes)
            → (a.ensure_dialer x.slot.spec.id q).1 ≡ r
            → Acquires p (looped a rest pol target last p)
        dialled (ok entry) g =
            let c = commit-Commits pol x a.settled_at q' picks.1 in
            subst (Acquires p) (sym (loop_committed a rest pol target last p x entry f g)) (
              record {
                leased = omega (arith, c.leased, calm.leased, picks.0.leased);
                waiting = omega (arith, c.pending, calm.waiting, picks.0.waiting);
              },
              lease_of-released pol x entry q',
            )
        dialled (err e) g =
            let c = give_up-Settles pol x e a.settled_at q' picks.1 in
            let back : Counts p (give_up pol x e a.settled_at q') 0 0 = record {
              leased = omega (arith, c.leased, calm.leased, picks.0.leased);
              waiting = omega (arith, c.pending, calm.waiting, picks.0.waiting);
            } in
            subst (Acquires p) (sym (loop_gave_up a rest pol target last p x e f g))
              (Acquires-after _ back (rec (some e) _))

All-first_attempts :
    (n : ℕ) (attempt : ℕ → Attempt)
    → ((k : ℕ) → IsQuiet (attempt k))
    → All IsQuiet (first_attempts n attempt)
unfolding first_attempts
All-first_attempts zero attempt quiet = tt
All-first_attempts (suc n) attempt quiet =
    (quiet zero, All-first_attempts n (λ k. attempt (suc k)) (λ k. quiet (suc k)))

-- When no other request comes in between, Acquire takes one connection exactly when it returns a
-- lease, which is not released, and none when it fails, however many slots failed before; no
-- reservation is left pending.
pub acquire-Acquires :
    (attempt : ℕ → Attempt) (pol : Policy) (target : Bytes) (p : Pool)
    → ((k : ℕ) → IsQuiet (attempt k))
    → Acquires p (acquire attempt pol target p)
unfolding acquire
acquire-Acquires attempt pol target p quiet =
    acquire_loop-Acquires (first_attempts p.opts.dial_attempts attempt) pol target none p
      (All-first_attempts p.opts.dial_attempts attempt quiet)
