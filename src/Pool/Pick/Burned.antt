-- ===== src/Pool/Pick/Burned.antt =====
-- The loop of recycleOldestBatchExitLocked in internal/pool/pool.go, against every slot it passes.
use global_egress.Shared.{
  ℕ, ◌≤◌, ◌≡◌, inl, inr, sym, ◌∙◌, subst, true, List, [], ◌∷◌, Option, none, some, Bytes, bytes_eq,
  addr_eq, arith, lookup, is_some, ltb, Bool-cases, In,
}
use global_egress.Policy.{Policy}
use global_egress.Pool.State.{SlotState, Pool, Batch, IpCooldowns}
use global_egress.Pool.Eligible.{eligible, without_batch}
use global_egress.Pool.Eligible.Admits.{admits, Agree, eligible-Agree, eligible-admits}
use global_egress.Pool.Pick.{older_burn, oldest_burn}
use global_egress.Pool.Pick.Choice.{burn_of, IsBurned}

-- What the loop found has a number of at most n.
abbrev pub FoundBy : ℕ → Option (SlotState × ℕ) → Type 0
FoundBy n none = ⊥
FoundBy n (some (s, seq)) = seq ≤ n

older_burn-FoundBy :
    (b : Batch) (s : SlotState) (best : Option (SlotState × ℕ)) (n : ℕ)
    → FoundBy n best
    → FoundBy n (older_burn b s best)
unfolding older_burn
older_burn-FoundBy b s none n h = absurd h
older_burn-FoundBy b s (some (t, least)) n h =
    elim (Bool-cases (is_some (lookup s.public_ip b.used_ips))) [
      | inl burned ↦ elim (Bool-cases (ltb (burn_of b s) least)) [
        | inl older ↦ rw (burned, older) (ground arith)
        | inr newer ↦ rw (burned, newer) h
      ]
      | inr free ↦ rw free h
    ]

older_burn-own :
    (b : Batch) (s : SlotState) (best : Option (SlotState × ℕ))
    → IsBurned b s
    → FoundBy (burn_of b s) (older_burn b s best)
unfolding older_burn
older_burn-own b s none burned = rw burned (omega arith)
older_burn-own b s (some (t, least)) burned = elim (Bool-cases (ltb (burn_of b s) least)) [
  | inl older ↦ rw (burned, older) (omega arith)
  | inr newer ↦ rw (burned, newer) (ground arith)
]

oldest_burn-kept :
    (p : Pool) (b : Batch) (pol : Policy) (target : Bytes) (now : ℕ) (m : IpCooldowns)
    (ss : List SlotState) (best : Option (SlotState × ℕ)) (n : ℕ)
    → FoundBy n best
    → FoundBy n (oldest_burn p b pol target now m ss best).0
unfolding oldest_burn
oldest_burn-kept p b pol target now m [] best n h = h
oldest_burn-kept p b pol target now m (s ∷ ss) best n h =
    oldest_burn-kept p b pol target now (eligible p m s (without_batch pol) target now).1 ss _ n
      (elim (Bool-cases (eligible p m s (without_batch pol) target now).0) [
        | inl passes ↦ rw passes (older_burn-FoundBy b s best n h)
        | inr fails ↦ rw fails h
      ])

pub oldest_burn-FoundBy :
    (p : Pool) (b : Batch) (pol : Policy) (target : Bytes) (now : ℕ) (m : IpCooldowns)
    (ss : List SlotState) (best : Option (SlotState × ℕ)) (t : SlotState)
    → Agree now m p.ip_cooldowns
    → In t ss
    → admits p t (without_batch pol) target now ≡ true
    → IsBurned b t
    → FoundBy (burn_of b t) (oldest_burn p b pol target now m ss best).0
unfolding oldest_burn
oldest_burn-FoundBy p b pol target now m [] best t agree i a burned = absurd i
oldest_burn-FoundBy p b pol target now m (s ∷ ss) best t agree (inl same) a burned =
    let here : t ≡ s = same in
    oldest_burn-kept p b pol target now (eligible p m s (without_batch pol) target now).1 ss _
      (burn_of b t)
      (rw
        (eligible-admits p m s (without_batch pol) target now agree
          ∙ subst (λ x. admits p x (without_batch pol) target now ≡ true) here a)
        (subst (λ x. FoundBy (burn_of b x) (older_burn b s best)) (sym here)
          (older_burn-own b s best (subst (IsBurned b) here burned))))
oldest_burn-FoundBy p b pol target now m (s ∷ ss) best t agree (inr i) a burned =
    oldest_burn-FoundBy p b pol target now (eligible p m s (without_batch pol) target now).1 ss _ t
      (λ u ip. eligible-Agree p m s (without_batch pol) target now u ip ∙ agree u ip) i a burned
