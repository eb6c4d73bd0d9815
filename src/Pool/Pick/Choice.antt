-- ===== src/Pool/Pick/Choice.antt =====
-- Which slot a selection may return, and the loops over the slots that look for it.
use global_egress.Shared.{
  ℕ, ◌≤◌, suc, ◌%◌, ◌<◌, ◌≡◌, ◌⊎◌, refl, sym, ap, subst, ◌∙◌, List, [], ◌∷◌, Bytes, bytes_eq, ◌==◌,
  arith, Bool-cases, Option-cases, inl, inr, Option, none, some, addr_eq, lookup, In, get_elem?-In,
  get_elem?, length, or_default, filter, is_some, true, ltb, In-find,
}
use global_egress.Policy.{Policy}
use global_egress.Pool.State.{SlotState, Pool, Batch, IpCooldowns, PreferredExit}
use global_egress.Pool.Eligible.{eligible, allowed, without_batch}
use global_egress.Pool.Eligible.Admits.{admits, Agree, eligible-Agree, eligible-admits}
use global_egress.Pool.Pick.{
  pick_ready, candidates, older_burn, oldest_burn, Preference, lighter, load, weigh, weigh_all,
  find_slot,
}
use global_egress.Pool.Loads.{Frame, loads}

-- The place of a slot's address in the order of the batch's burns.
abbrev pub burn_of : Batch → SlotState → ℕ
burn_of b s = or_default (lookup s.public_ip b.burn_seq) 0

abbrev pub IsBurned : Batch → SlotState → Type 0
IsBurned b s = is_some (lookup s.public_ip b.used_ips) ≡ true

-- The batch has run dry for the policy, and the slot is one whose address it burned, of those that the
-- policy admits but for the batch one that was burned first.
pub record Recycled (p : Pool) (pol : Policy) (target : Bytes) (now : ℕ) (s : SlotState)
    : Type 0 where
  pub wanted : pol.recycle_batch ≡ true
  pub dry : filter (λ t. admits p t pol target now) p.slots ≡ []
  pub admitted : admits p s (without_batch pol) target now ≡ true
  pub batch : Batch
  pub found : lookup pol.unique_batch p.batches ≡ some batch
  pub live : now < batch.expires_at
  pub burned : IsBurned batch s
  pub oldest :
      (t : SlotState)
      → In t p.slots
      → admits p t (without_batch pol) target now ≡ true
      → IsBurned batch t
      → burn_of batch s ≤ burn_of batch t

-- A slot of the pool that passes every filter, or one that is recycled.
abbrev pub Chosen : Pool → Policy → Bytes → ℕ → SlotState → Type 0
Chosen p pol target now s =
    In s p.slots × ((admits p s pol target now ≡ true) ⊎ Recycled p pol target now s)

-- What the stages before a choice leave alone.
pub record Keeps (now : ℕ) (p q : Pool) : Type 0 where
  pub opts : q.opts ≡ p.opts
  pub leased : q.leased ≡ p.leased
  pub pending : q.pending_leases ≡ p.pending_leases
  pub slots : q.slots ≡ p.slots
  pub batches : q.batches ≡ p.batches
  pub agree : Agree now q.ip_cooldowns p.ip_cooldowns

pub Keeps-Frame : {now : ℕ} {p q : Pool} → Keeps now p q → Frame p q
Keeps-Frame k = record {
  opts = k.opts;
  leased = k.leased;
  pending = k.pending;
  loads = ap loads k.slots;
}

pub admits-Keeps :
    {now : ℕ} {p q : Pool} (s : SlotState) (pol : Policy) (target : Bytes)
    → Keeps now p q
    → admits q s pol target now ≡ admits p s pol target now
unfolding admits allowed
admits-Keeps {now} {p} {q} s pol target k = rw (k.opts, k.batches, k.agree target s.public_ip)

-- The loop over the slots, which forgets expired cooldowns of addresses while it tests, is a filter by
-- the test without that side effect, in the same order, if the cooldowns that it starts from and those of
-- the pool agree on which addresses are cooling down now.
pub candidates-filter :
    (p : Pool) (pol : Policy) (target : Bytes) (now : ℕ) (m : IpCooldowns) (ss : List SlotState)
    → Agree now m p.ip_cooldowns
    → (candidates p pol target now m ss).0 ≡ filter (λ s. admits p s pol target now) ss
unfolding candidates
candidates-filter p pol target now m [] agree = refl
candidates-filter p pol target now m (s ∷ ss) agree =
    let after = (eligible p m s pol target now).1 in
    let rest =
      candidates-filter p pol target now after ss
        (λ t a. eligible-Agree p m s pol target now t a ∙ agree t a) in
    rw (eligible-admits p m s pol target now agree, rest) refl

pub candidates-Agree :
    (p : Pool) (pol : Policy) (target : Bytes) (now : ℕ) (m : IpCooldowns) (ss : List SlotState)
    → Agree now (candidates p pol target now m ss).1 m
unfolding candidates
candidates-Agree p pol target now m [] t a = refl
candidates-Agree p pol target now m (s ∷ ss) t a =
    candidates-Agree p pol target now (eligible p m s pol target now).1 ss t a
    ∙ eligible-Agree p m s pol target now t a

pub pick_ready-In :
    (s : SlotState) (rest : List SlotState) (draw : ℕ) → In (pick_ready s rest draw) (s ∷ rest)
unfolding pick_ready
pick_ready-In s rest draw = split (get_elem? (s ∷ rest) (draw % suc (length rest))) refl
  where
    split :
        (o : Option SlotState)
        → get_elem? (s ∷ rest) (draw % suc (length rest)) ≡ o
        → In (pick_ready s rest draw) (s ∷ rest)
    split none e = inl (rw (e, pick_ready) refl)
    split (some t) e =
        let drawn : t ≡ pick_ready s rest draw = rw (e, pick_ready) refl in
        subst (λ z. In z (s ∷ rest)) drawn (get_elem?-In (s ∷ rest) _ e)

-- What the recycling loop has found so far: a slot of the pool that passes every filter but the
-- batch's, whose address the batch burned at that sequence number.
abbrev pub IsBurnedExit : Pool → Batch → Policy → Bytes → ℕ → Option (SlotState × ℕ) → Type 0
IsBurnedExit p b pol target now none = Unit
IsBurnedExit p b pol target now (some (s, seq)) =
    In s p.slots
    × (admits p s (without_batch pol) target now ≡ true)
    × (is_some (lookup s.public_ip b.used_ips) ≡ true)
    × (or_default (lookup s.public_ip b.burn_seq) 0 ≡ seq)

older_burn-IsBurnedExit :
    (p : Pool) (b : Batch) (pol : Policy) (target : Bytes) (now : ℕ) (s : SlotState)
    (best : Option (SlotState × ℕ))
    → In s p.slots
    → admits p s (without_batch pol) target now ≡ true
    → IsBurnedExit p b pol target now best
    → IsBurnedExit p b pol target now (older_burn b s best)
unfolding older_burn
older_burn-IsBurnedExit p b pol target now s none m a good =
    elim (Bool-cases (is_some (lookup s.public_ip b.used_ips))) [
      | inl burned ↦ rw burned (m, a, burned, refl)
      | inr free ↦ rw free tt
    ]
older_burn-IsBurnedExit p b pol target now s (some (t, least)) m a good =
    elim (Bool-cases (is_some (lookup s.public_ip b.used_ips))) [
      | inl burned ↦ elim (Bool-cases (ltb (or_default (lookup s.public_ip b.burn_seq) 0) least)) [
        | inl older ↦ rw (burned, older) (m, a, burned, refl)
        | inr newer ↦ rw (burned, newer) good
      ]
      | inr free ↦ rw free good
    ]

pub oldest_burn-IsBurnedExit :
    (p : Pool) (b : Batch) (pol : Policy) (target : Bytes) (now : ℕ) (m : IpCooldowns)
    (ss : List SlotState) (best : Option (SlotState × ℕ))
    → Agree now m p.ip_cooldowns
    → ((s : SlotState) → In s ss → In s p.slots)
    → IsBurnedExit p b pol target now best
    → IsBurnedExit p b pol target now (oldest_burn p b pol target now m ss best).0
unfolding oldest_burn
oldest_burn-IsBurnedExit p b pol target now m [] best agree sub good = good
oldest_burn-IsBurnedExit p b pol target now m (s ∷ ss) best agree sub good =
    oldest_burn-IsBurnedExit p b pol target now (eligible p m s (without_batch pol) target now).1 ss
      _ (λ t a. eligible-Agree p m s (without_batch pol) target now t a ∙ agree t a)
      (λ t i. sub t (inr i))
      (elim (Bool-cases (eligible p m s (without_batch pol) target now).0) [
        | inl passes ↦ rw passes (
            older_burn-IsBurnedExit p b pol target now s best (sub s (inl refl))
              (sym (eligible-admits p m s (without_batch pol) target now agree) ∙ passes) good)
        | inr fails ↦ rw fails good
      ])

pub oldest_burn-Agree :
    (p : Pool) (b : Batch) (pol : Policy) (target : Bytes) (now : ℕ) (m : IpCooldowns)
    (ss : List SlotState) (best : Option (SlotState × ℕ))
    → Agree now (oldest_burn p b pol target now m ss best).1 m
unfolding oldest_burn
oldest_burn-Agree p b pol target now m [] best t a = refl
oldest_burn-Agree p b pol target now m (s ∷ ss) best t a =
    oldest_burn-Agree p b pol target now (eligible p m s (without_batch pol) target now).1 ss _ t a
    ∙ eligible-Agree p m s (without_batch pol) target now t a

-- What the loop over the preferred slots has found so far.
pub record IsPreference (p : Pool) (pol : Policy) (target : Bytes) (now : ℕ) (f : Preference)
    : Type 0 where
  pub agree : Agree now f.cool p.ip_cooldowns
  pub chosen : (s : SlotState) → f.best ≡ some s → In s p.slots × (admits p s pol target now ≡ true)

lighter-cases :
    (s t : SlotState) (best : Option SlotState)
    → lighter s best ≡ some t
    → (t ≡ s) ⊎ (best ≡ some t)
unfolding lighter
lighter-cases s t none h = inl (ground arith)
lighter-cases s t (some u) h = elim (Bool-cases (ltb (load s) (load u))) [
  | inl less ↦ inl (ground arith)
  | inr more ↦ inr (ground arith)
]

weigh-best :
    (p : Pool) (pol : Policy) (target : Bytes) (now : ℕ) (pref : PreferredExit) (s t : SlotState)
    (f : Preference)
    → (weigh p pol target now pref s f).best ≡ some t
    → let m = (eligible p f.cool s (without_batch pol) target now).1 in
      (f.best ≡ some t) ⊎ ((t ≡ s) × ((eligible p m s pol target now).0 ≡ true))
unfolding weigh
weigh-best p pol target now pref s t f h = ground (arith, lighter-cases s t f.best)

weigh-IsPreference :
    (p : Pool) (pol : Policy) (target : Bytes) (now : ℕ) (pref : PreferredExit) (s : SlotState)
    (f : Preference)
    → In s p.slots
    → IsPreference p pol target now f
    → IsPreference p pol target now (weigh p pol target now pref s f)
unfolding weigh
weigh-IsPreference p pol target now pref s f m good = record {
  agree = λ t a. ground (
    arith,
    good.agree t a,
    eligible-Agree p f.cool s (without_batch pol) target now t a,
    eligible-Agree p (eligible p f.cool s (without_batch pol) target now).1 s pol target now t a,
  );
  chosen = λ t found. elim (weigh-best p pol target now pref s t f found) [
    | inl before ↦ good.chosen t before
    | inr (same, passes) ↦ rw same (
      m,
      sym (
            eligible-admits p (eligible p f.cool s (without_batch pol) target now).1 s pol target
              now
              λ u a. eligible-Agree p f.cool s (without_batch pol) target now u a ∙ good.agree u a)
          ∙ passes,
    )
  ];
}

pub weigh_all-IsPreference :
    (p : Pool) (pol : Policy) (target : Bytes) (now : ℕ) (prefs : List PreferredExit)
    (f : Preference)
    → IsPreference p pol target now f
    → IsPreference p pol target now (weigh_all p pol target now prefs f)
unfolding weigh_all
weigh_all-IsPreference p pol target now [] f good = good
weigh_all-IsPreference p pol target now (pref ∷ prefs) f good =
    weigh_all-IsPreference p pol target now prefs _
      (elim (Option-cases (find_slot pref.slot_id p.slots)) [
        | inl e ↦ rw e good
        | inr (s, e) ↦ rw e (
            weigh-IsPreference p pol target now pref s f
              (In-find (λ t. t.spec.id == pref.slot_id) p.slots e).0 good)
      ])
