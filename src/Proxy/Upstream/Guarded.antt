-- ===== src/Proxy/Upstream/Guarded.antt =====
-- What the guard has seen of every connection that comes about.
use global_egress.Shared.{
  ℕ, zero, suc, ◌<◌, ◌≡◌, refl, ap, sym, subst, ◌∙◌, Bool, true, false, List, [], ◌∷◌, Option, none,
  some, Bytes, Addr, arith, Result, ok, err, or_default, In, inl, inr,
}
use global_egress.Policy.{Policy}
use global_egress.Netguard.{Guard, GuardError, check_port, check_host, check_resolved}
use global_egress.Pool.State.{Pool, Error}
use global_egress.Pool.Acquire.{Lease, acquire}
use global_egress.Proxy.Upstream.{
  Failure, Try, first_tries, checked_dial, abandon, connect_loop, connect_upstream,
}

In-first_tries :
    (n : ℕ) (try : ℕ → Try) (t : Try) → In t (first_tries n try) → (k : ℕ) × (k < n) × (t ≡ try k)
unfolding first_tries
In-first_tries zero try t m = absurd m
In-first_tries (suc n) try t (inl e) = (zero, omega arith, e)
In-first_tries (suc n) try t (inr m) =
    let (k, below, e) = In-first_tries n (λ k. try (suc k)) t m in (suc k, omega (arith, below), e)

lease_of_ok : {a b : Lease} → ◌≡◌ {A = Result Failure Lease} (ok a) (ok b) → a ≡ b
lease_of_ok h = cc

module _ (parse_addr : Bytes → Option Addr) (split_host_port : Bytes → Option Bytes)
    (at_destination : Error → Bool) (g : Guard) where
  -- The dial of the attempt returned a peer that passed the guard.
  abbrev pub Passed : Lease → Try → Type 0
  Passed l t =
      (before after : Pool) × (remote : Option Bytes) × (t.dial l before ≡ (after, ok remote))
      × (check_resolved parse_addr split_host_port g remote ≡ ok tt)

  checked_dial-Passed :
      (t : Try) (l : Lease) (before after : Pool) (dialled : Result Error (Option Bytes))
      → t.dial l before ≡ (after, dialled)
      → checked_dial parse_addr split_host_port at_destination g l dialled ≡ ok tt
      → l.chained ≡ false
      → Passed l t
  unfolding checked_dial
  checked_dial-Passed t l before after (err e) here h direct = cc
  checked_dial-Passed t l before after (ok remote) here h direct =
      go (check_resolved parse_addr split_host_port g remote) refl
    where
      go :
          (r : Result GuardError (Unit {0}))
          → check_resolved parse_addr split_host_port g remote ≡ r
          → Passed l t
      go (ok u) e = (before, after, remote, here, e)
      go (err x) e = absurd (impossible (rw (direct, e) at h))
        where
          impossible : ◌≡◌ {A = Result Failure (Unit {0})} (err (Failure.from_guard x)) (ok tt) → ⊥
          impossible q = cc

  module _ (t : Try) (ts : List Try) (pol : Policy) (host : Bytes) (last : Option Failure)
      (p : Pool) where
    abbrev pub acquired : Pool × Result Error Lease
    acquired = acquire t.attempts pol host p

    abbrev pub checked : Lease → Result Failure (Unit {0})
    checked k = checked_dial parse_addr split_host_port at_destination g k (t.dial k acquired.0).1

    abbrev pub looped : Pool × Result Failure Lease
    looped = connect_loop parse_addr split_host_port at_destination g (t ∷ ts) pol host last p

    pub loop_done : t.done ≡ true → looped ≡ (p, err Failure.context_done)
    unfolding connect_loop
    loop_done e = rw e refl

    pub loop_refused :
        (x : Error)
        → t.done ≡ false
        → acquired.1 ≡ err x
        → looped ≡ (acquired.0, err (or_default last (Failure.from_pool x)))
    unfolding connect_loop
    loop_refused x e f = rw (e, f) refl

    pub loop_dialled :
        (k : Lease)
        → t.done ≡ false
        → acquired.1 ≡ ok k
        → checked k ≡ ok tt
        → looped ≡ ((t.dial k acquired.0).0, ok k)
    unfolding connect_loop
    loop_dialled k e f c = rw (e, f, c) refl

    pub loop_failed :
        (k : Lease) (x : Failure)
        → t.done ≡ false
        → acquired.1 ≡ ok k
        → checked k ≡ err x
        → looped
          ≡ connect_loop parse_addr split_host_port at_destination g ts pol host
              (some x)
              (abandon parse_addr split_host_port at_destination g t k x (t.dial k acquired.0).0)
    unfolding connect_loop abandon
    loop_failed k x e f c = rw (e, f, c) refl

  connect_loop-Passed :
      (ts : List Try) (pol : Policy) (host : Bytes) (last : Option Failure) (p : Pool) (l : Lease)
      → (connect_loop parse_addr split_host_port at_destination g ts pol host last p).1 ≡ ok l
      → l.chained ≡ false
      → (t : Try) × In t ts × Passed l t
  connect_loop-Passed [] pol host last p l h direct = absurd (no_lease (unfold connect_loop in h))
    where
      no_lease :
          ◌≡◌ {A = Result Failure Lease} (err (or_default last Failure.no_attempt)) (ok l) → ⊥
      no_lease e = cc
  connect_loop-Passed (t ∷ ts) pol host last p l h direct =
      split t.done refl (acquired t ts pol host last p).1 refl
        (λ last' q h'. connect_loop-Passed ts pol host last' q l h' direct)
    where
      ended : {q : Pool} {f : Failure} → looped t ts pol host last p ≡ (q, err f) → ⊥
      ended e = cc (sym h ∙ ap (λ r. r.1) e)

      split :
          (d : Bool)
          → t.done ≡ d
          → (a : Result Error Lease) → (acquired t ts pol host last p).1 ≡ a
          → ((last' : Option Failure) (q : Pool)
              → (connect_loop parse_addr split_host_port at_destination g ts pol host last' q).1
                ≡ ok l
              → (u : Try) × In u ts × Passed l u)
          → (u : Try) × In u (t ∷ ts) × Passed l u
      split true e a f rec = absurd (ended (loop_done t ts pol host last p e))
      split false e (err x) f rec = absurd (ended (loop_refused t ts pol host last p x e f))
      split false e (ok k) f rec = dialled (checked t ts pol host last p k) refl
        where
          q : Pool
          q = (acquired t ts pol host last p).0

          dialled :
              (r : Result Failure (Unit {0}))
              → checked t ts pol host last p k ≡ r
              → (u : Try) × In u (t ∷ ts) × Passed l u
          dialled (ok u) c =
              let same : k ≡ l =
                lease_of_ok (sym (ap (λ r. r.1) (loop_dialled t ts pol host last p k e f c)) ∙ h) in
              let passed =
                checked_dial-Passed t k q (t.dial k q).0 (t.dial k q).1 refl c
                  (subst (λ x. x.chained ≡ false) (sym same) direct) in
              (t, inl refl, subst (λ x. Passed x t) same passed)
          dialled (err x) c =
              let (u, m, passed) =
                rec (some x) _
                  (sym (ap (λ r. r.1) (loop_failed t ts pol host last p k x e f c)) ∙ h) in
              (u, inr m, passed)

  module _ (tries : ℕ) (try : ℕ → Try) (pol : Policy) (host : Bytes) (port : ℕ) (p : Pool) where
    abbrev pub connected : Pool × Result Failure Lease
    connected =
        connect_upstream parse_addr split_host_port at_destination g tries try pol host port p

    pub port_denied :
        (x : GuardError) → check_port g port ≡ err x → connected ≡ (p, err (Failure.from_guard x))
    unfolding connect_upstream
    port_denied x e = rw (e, connect_upstream) refl

    pub host_denied :
        (x : GuardError)
        → check_port g port ≡ ok tt
        → check_host parse_addr g host ≡ err x
        → connected ≡ (p, err (Failure.from_guard x))
    unfolding connect_upstream
    host_denied x e f = rw (e, f, connect_upstream) refl

    pub permitted :
        check_port g port ≡ ok tt
        → check_host parse_addr g host ≡ ok tt
        → connected
          ≡ connect_loop parse_addr split_host_port at_destination g
              (first_tries tries try)
              pol
              host
              none
              p
    unfolding connect_upstream
    permitted e f = rw (e, f, connect_upstream) refl

  -- A connection comes about only if the guard permits the port and the host as the client wrote
  -- it; and, unless it is chained through another proxy, one of the attempts dialled a peer that the
  -- guard permits.
  pub connect_upstream-Passed :
      (tries : ℕ) (try : ℕ → Try) (pol : Policy) (host : Bytes) (port : ℕ) (p : Pool) (l : Lease)
      → (connect_upstream parse_addr split_host_port at_destination g tries try pol host port p).1
        ≡ ok l
      → (check_port g port ≡ ok tt)
        × (check_host parse_addr g host ≡ ok tt)
        × (l.chained ≡ false → (k : ℕ) × (k < tries) × Passed l (try k))
  connect_upstream-Passed tries try pol host port p l h =
      split (check_port g port) refl (check_host parse_addr g host) refl
    where
      ended : {q : Pool} {f : Failure} → connected tries try pol host port p ≡ (q, err f) → ⊥
      ended e = cc (sym h ∙ ap (λ r. r.1) e)

      split :
          (a : Result GuardError (Unit {0}))
          → check_port g port ≡ a
          → (b : Result GuardError (Unit {0})) → check_host parse_addr g host ≡ b
          → (check_port g port ≡ ok tt)
            × (check_host parse_addr g host ≡ ok tt)
            × (l.chained ≡ false → (k : ℕ) × (k < tries) × Passed l (try k))
      split (err x) ea b eb = absurd (ended (port_denied tries try pol host port p x ea))
      split (ok u) ea (err x) eb = absurd (ended (host_denied tries try pol host port p x ea eb))
      split (ok u) ea (ok v) eb = (
        ea,
        eb,
        λ direct.
            let (t, m, passed) =
              connect_loop-Passed (first_tries tries try) pol host none p l
                (sym (ap (λ r. r.1) (permitted tries try pol host port p ea eb)) ∙ h) direct in
            let (k, below, same) = In-first_tries tries try t m in
            (k, below, subst (Passed l) same passed),
      )
