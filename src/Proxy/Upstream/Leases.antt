-- ===== src/Proxy/Upstream/Leases.antt =====
-- No lease is lost between the attempts of a request.
use global_egress.Shared.{
  ℕ, zero, suc, ◌-◌, ◌≡◌, refl, sym, subst, Bool, true, false, List, [], ◌∷◌, Option, none, some,
  Bytes, Addr, Result, ok, err, arith, All, is_empty, not, ◌&&◌, Bool-cases, inl, inr,
}
use global_egress.Policy.{Policy}
use global_egress.Netguard.{Guard, GuardError, check_port, check_host}
use global_egress.Pool.State.{Pool, Error}
use global_egress.Pool.Acquire.{Lease}
use global_egress.Pool.Acquire.Balance.{Counts, IsQuiet, Acquires, acquire-Acquires}
use global_egress.Pool.Entries.{note_dial_failure}
use global_egress.Pool.System.Tally.{release_lease-Ends}
use global_egress.Proxy.Upstream.{
  Failure, Try, blamed, first_tries, refused_there, abandon, connect_loop, connect_upstream,
}
use global_egress.Proxy.Upstream.Guarded.{
  acquired, checked, loop_done, loop_refused, loop_dialled, loop_failed, port_denied, host_denied,
  permitted,
}

-- Neither the attempts of Acquire nor the dial touch the counters.
pub record IsCalm (t : Try) : Type 0 where
  pub attempts : (k : ℕ) → IsQuiet (t.attempts k)
  pub dial : (l : Lease) (p : Pool) → Counts p (t.dial l p).0 0 0

note_dial_failure-Counts :
    (l : Lease) (e : Error) (there : Bool) (now : ℕ) (p : Pool)
    → Counts p (note_dial_failure l e there now p) 0 0
unfolding note_dial_failure
note_dial_failure-Counts l e there now p = elim (Bool-cases (not (is_empty l.entry) && not there)) [
  | inl entry ↦ rw entry (record { leased = omega arith; waiting = omega arith })
  | inr slot ↦ rw slot (record { leased = omega arith; waiting = omega arith })
]

-- A connection holds one lease, which is not released, and a failure none.
abbrev pub Holds : Pool → Pool × Result Failure Lease → Type 0
Holds p (q, ok l) = Counts p q 1 0 × (l.released ≡ false)
Holds p (q, err e) = Counts p q 0 0

Holds-after :
    {p q : Pool} (out : Pool × Result Failure Lease) → Counts p q 0 0 → Holds q out → Holds p out
Holds-after (r, ok l) c (d, held) = (
  record {
    leased = omega (arith, c.leased, d.leased);
    waiting = omega (arith, c.waiting, d.waiting);
  },
  held,
)
Holds-after (r, err e) c d = record {
  leased = omega (arith, c.leased, d.leased);
  waiting = omega (arith, c.waiting, d.waiting);
}

Counts-same : (p : Pool) → Counts p p 0 0
Counts-same p = record { leased = omega arith; waiting = omega arith }

module _ (parse_addr : Bytes → Option Addr) (split_host_port : Bytes → Option Bytes)
    (at_destination : Error → Bool) (g : Guard) where
  pub abandon-Counts :
      (t : Try) (l : Lease) (f : Failure) (p : Pool)
      → l.released ≡ false
      → let q = abandon parse_addr split_host_port at_destination g t l f p in
        (q.leased ≡ p.leased - 1) × (q.pending_leases ≡ p.pending_leases)
  unfolding abandon
  abandon-Counts t l f p held =
      let q =
        note_dial_failure l (blamed f) (refused_there parse_addr split_host_port at_destination g f)
          t.noted_at p in
      let c =
        note_dial_failure-Counts l (blamed f)
          (refused_there parse_addr split_host_port at_destination g f) t.noted_at p in
      let e = release_lease-Ends l t.released_at q held in
      (omega (arith, c.leased, e.leased), omega (arith, c.waiting, e.pending))

  abbrev Connects : List Try → Policy → Bytes → Option Failure → Pool → Type 0
  Connects ts pol host last p =
      Holds p (connect_loop parse_addr split_host_port at_destination g ts pol host last p)

  connect_loop-Holds :
      (ts : List Try) (pol : Policy) (host : Bytes) (last : Option Failure) (p : Pool)
      → All IsCalm ts
      → Connects ts pol host last p
  connect_loop-Holds [] pol host last p calm = unfold connect_loop in Counts-same p
  connect_loop-Holds (t ∷ ts) pol host last p (calm, others) =
      split t.done refl (first_acquired.1) refl
        (acquire-Acquires t.attempts pol host p calm.attempts)
        (λ last' q. connect_loop-Holds ts pol host last' q others)
    where
      first_acquired : Pool × Result Error Lease
      first_acquired = acquired parse_addr split_host_port at_destination g t ts pol host last p

      split :
          (d : Bool)
          → t.done ≡ d
          → (a : Result Error Lease) → first_acquired.1 ≡ a
          → Acquires p first_acquired
          → ((last' : Option Failure) (q : Pool) → Connects ts pol host last' q)
          → Connects (t ∷ ts) pol host last p
      split true e a f got rec =
          subst (Holds p)
            (sym (loop_done parse_addr split_host_port at_destination g t ts pol host last p e))
            (Counts-same p)
      split false e (err x) f got rec =
          subst (Holds p)
            (sym
              (loop_refused parse_addr split_host_port at_destination g t ts pol host last p x e f))
            (subst (λ r. Acquires p (first_acquired.0, r)) f got)
      split false e (ok k) f got rec =
          dialled (checked parse_addr split_host_port at_destination g t ts pol host last p k) refl
            (subst (λ r. Acquires p (first_acquired.0, r)) f got)
        where
          q : Pool
          q = first_acquired.0

          q' : Pool
          q' = (t.dial k q).0

          dialled :
              (r : Result Failure (Unit {0}))
              → checked parse_addr split_host_port at_destination g t ts pol host last p k ≡ r
              → Counts p q 1 0 × (k.released ≡ false)
              → Connects (t ∷ ts) pol host last p
          dialled (ok u) c (took, held) =
              let d = calm.dial k q in
              subst (Holds p)
                (sym (
                  loop_dialled parse_addr split_host_port at_destination g t ts pol host last p k e
                    f c))
                (
                  record {
                    leased = omega (arith, took.leased, d.leased);
                    waiting = omega (arith, took.waiting, d.waiting);
                  },
                  held,
                )
          dialled (err x) c (took, held) =
              let d = calm.dial k q in
              let (less, same) = abandon-Counts t k x q' held in
              let back : Counts p (abandon parse_addr split_host_port at_destination g t k x q') 0
                  0 =
                record {
                  leased = omega (arith, took.leased, d.leased, less);
                  waiting = omega (arith, took.waiting, d.waiting, same);
                } in
              subst (Holds p)
                (sym (
                  loop_failed parse_addr split_host_port at_destination g t ts pol host last p k x e
                    f c))
                (Holds-after _ back (rec (some x) _))

  All-first_tries :
      (n : ℕ) (try : ℕ → Try) → ((k : ℕ) → IsCalm (try k)) → All IsCalm (first_tries n try)
  unfolding first_tries
  All-first_tries zero try calm = tt
  All-first_tries (suc n) try calm =
      (calm zero, All-first_tries n (λ k. try (suc k)) (λ k. calm (suc k)))

  -- When no other request comes in between, a connection holds exactly one lease more than before,
  -- and a failure none, whichever step failed (the guard, Acquire, the dial, the address it reached) and
  -- however many slots were tried before; no reservation is left pending.
  pub connect_upstream-Holds :
      (tries : ℕ) (try : ℕ → Try) (pol : Policy) (host : Bytes) (port : ℕ) (p : Pool)
      → ((k : ℕ) → IsCalm (try k))
      → Holds p
          (connect_upstream parse_addr split_host_port at_destination g tries try pol host port p)
  connect_upstream-Holds tries try pol host port p calm =
      split (check_port g port) refl (check_host parse_addr g host) refl
    where
      split :
          (a : Result GuardError (Unit {0}))
          → check_port g port ≡ a
          → (b : Result GuardError (Unit {0})) → check_host parse_addr g host ≡ b
          → Holds p (
              connect_upstream parse_addr split_host_port at_destination g tries try pol host port
                p)
      split (err x) ea b eb =
          subst (Holds p)
            (sym (
              port_denied parse_addr split_host_port at_destination g tries try pol host port p x
                ea))
            (Counts-same p)
      split (ok u) ea (err x) eb =
          subst (Holds p)
            (sym (
              host_denied parse_addr split_host_port at_destination g tries try pol host port p x ea
                eb))
            (Counts-same p)
      split (ok u) ea (ok v) eb =
          subst (Holds p)
            (sym (
              permitted parse_addr split_host_port at_destination g tries try pol host port p ea
                eb))
            (connect_loop-Holds (first_tries tries try) pol host none p
              (All-first_tries tries try calm))
