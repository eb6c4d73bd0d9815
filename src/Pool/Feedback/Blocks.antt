-- ===== src/Pool/Feedback/Blocks.antt =====
-- A report keeps the reported exit away from its destination until the cooldown ends.
use global_egress.Shared.{
  ℕ, ◌+◌, ◌≤◌, ◌<◌, ◌≡◌, ◌≢◌, ◌⊎◌, refl, sym, ap, subst, ◌∙◌, List, [], ◌∷◌, Bytes, bytes_eq,
  bytes_beq_iff, Addr, addr_eq, is_valid, is_empty, ◌==◌, ==_refl, nat_eq, arith, Bool-cases, inl,
  inr, Option, none, some, not, ◌&&◌, true, false, Map, lookup, insert, or_default, lookup-insert,
  ltb, lt→ltb, In, Result, ok, err, In-find, map, retain, lookup-retain_kept, lookup-map_values,
}
use global_egress.Policy.{Policy}
use global_egress.Pool.State.{SlotState, Pool, Error, IpCooldowns}
use global_egress.Pool.Cooldowns.{cooling_down, set_ip_cooldown, expire, expire_cooldowns, not_past}
use global_egress.Pool.Pick.Choice.{Chosen}
use global_egress.Pool.Pick.Whole.{pick-Chosen}
use global_egress.Pool.Budget.{update_slots}
use global_egress.Pool.Eligible.{without_batch}
use global_egress.Pool.Eligible.Admits.{admits, ip_cooled}
use global_egress.Pool.Pick.{Picked, find_slot, pick, scope_of}
use global_egress.Pool.Feedback.{
  ReportInput, ReportResult, report, report_on, report_found, reported_slot, apply_report,
  cool_down, cool_until, forget_preferred, release_from_batches, end_session, cooldown_of, rotate,
}

-- The cooldowns that stand against an exit: at the slot, and at its address if that is measured.
pub record Bars (p : Pool) (target id : Bytes) (ip : Addr) (until : ℕ) : Type 0 where
  pub named : target ≢ []
  pub by_slot :
      (s : SlotState) → In s p.slots → s.spec.id ≡ id → lookup target s.cooldowns ≡ some until
  pub by_ip :
      is_valid ip ≡ true
      → (m : Map Addr ℕ) × (u : ℕ) × (lookup target p.ip_cooldowns ≡ some m)
        × (lookup ip m ≡ some u)
        × (until ≤ u)

-- The slot, or a slot that has its address.
abbrev pub IsExit : Bytes → Addr → SlotState → Type 0
IsExit id ip s = (s.spec.id ≡ id) ⊎ ((is_valid ip ≡ true) × (s.public_ip ≡ ip))

is_empty_of_ne : (t : Bytes) → t ≢ [] → is_empty t ≡ false
is_empty_of_ne [] h = absurd (h refl)
is_empty_of_ne (c ∷ t) h = refl

cooling_of_lookup :
    (target : Bytes) (until now : ℕ) (s : SlotState)
    → target ≢ []
    → lookup target s.cooldowns ≡ some until
    → now < until
    → cooling_down s target now ≡ true
unfolding cooling_down lookup
cooling_of_lookup target until now s named found early = ground (arith, is_empty_of_ne target named)

ip_cooled_of_lookup :
    (target : Bytes) (ip : Addr) (now : ℕ) (m : IpCooldowns) (by_ip : Map Addr ℕ) (u : ℕ)
    → target ≢ []
    → is_valid ip ≡ true
    → lookup target m ≡ some by_ip
    → lookup ip by_ip ≡ some u
    → now < u
    → ip_cooled target ip now m ≡ true
unfolding ip_cooled
ip_cooled_of_lookup target ip now m by_ip u named valid found entry early =
    ground (arith, is_empty_of_ne target named)

admits-Bars :
    (p : Pool) (target id : Bytes) (ip : Addr) (until now : ℕ) (s : SlotState) (pol : Policy)
    → Bars p target id ip until
    → now < until
    → In s p.slots
    → IsExit id ip s
    → admits p s pol target now ≡ false
unfolding admits
admits-Bars p target id ip until now s pol b early m (inl same) =
    ground (arith, cooling_of_lookup target until now s b.named (b.by_slot s m same))
admits-Bars p target id ip until now s pol b early m (inr (valid, same)) =
    let (by_ip, u, found, entry, late) = b.by_ip valid in
    let cooled =
      ip_cooled_of_lookup target ip now p.ip_cooldowns by_ip u b.named valid found entry
        (omega arith) in
    ground (arith, cooled)

abbrev by_ip_at : Bytes → IpCooldowns → Map Addr ℕ
by_ip_at target m = or_default (lookup target m) []

set_ip_cooldown-lookup :
    (target : Bytes) (ip : Addr) (until : ℕ) (m : IpCooldowns)
    → target ≢ []
    → is_valid ip ≡ true
    → 0 < until
    → (by_ip : Map Addr ℕ) × (u : ℕ) × (lookup target (set_ip_cooldown target ip until m)
        ≡ some by_ip)
      × (lookup ip by_ip ≡ some u)
      × (until ≤ u)
unfolding set_ip_cooldown
set_ip_cooldown-lookup target ip until m named valid pos = go (lookup ip (by_ip_at target m)) refl
  where
    empty : is_empty target ≡ false
    empty = is_empty_of_ne target named

    later :
        (c : ℕ)
        → lookup ip (by_ip_at target m) ≡ some c
        → (by_ip : Map Addr ℕ) × (u : ℕ) × (lookup target (set_ip_cooldown target ip until m)
            ≡ some by_ip)
          × (lookup ip by_ip ≡ some u)
          × (until ≤ u)
    later c e = elim (Bool-cases (ltb c until)) [
      | inl sooner ↦ (
        insert ip until (by_ip_at target m),
        until,
        rw (empty, valid, e, sooner) (lookup-insert target target _ m ∙ rw (==_refl target) refl),
        lookup-insert ip ip until _ ∙ rw (==_refl ip) refl,
        omega arith,
      )
      | inr already ↦ (
        by_ip_at target m,
        c,
        rw (empty, valid, e, already) (lookup-insert target target _ m ∙ rw (==_refl target) refl),
        e,
        ground arith,
      )
    ]

    go :
        (o : Option ℕ)
        → lookup ip (by_ip_at target m) ≡ o
        → (by_ip : Map Addr ℕ) × (u : ℕ) × (lookup target (set_ip_cooldown target ip until m)
            ≡ some by_ip)
          × (lookup ip by_ip ≡ some u)
          × (until ≤ u)
    go none e = (
      insert ip until (by_ip_at target m),
      until,
      rw (empty, valid, e, lt→ltb 0 until pos)
          (lookup-insert target target _ m ∙ rw (==_refl target) refl),
      lookup-insert ip ip until _ ∙ rw (==_refl ip) refl,
      omega arith,
    )
    go (some c) e = later c e

cool_until-lookup :
    (target : Bytes) (until : ℕ) (id : Bytes) (ss : List SlotState) (s : SlotState)
    → In s (update_slots id (cool_until target until) ss)
    → s.spec.id ≡ id
    → lookup target s.cooldowns ≡ some until
unfolding update_slots cool_until
cool_until-lookup target until id [] s m same = absurd m
cool_until-lookup target until id (t ∷ ss) s (inr m) same =
    cool_until-lookup target until id ss s m same
cool_until-lookup target until id (t ∷ ss) s (inl e) same = ground (
  arith,
  bytes_beq_iff t.spec.id id,
  lookup-insert target target until t.cooldowns,
  bytes_beq_iff target target,
)

cool_down-Bars :
    (target : Bytes) (s : SlotState) (until : ℕ) (p : Pool)
    → target ≢ []
    → 0 < until
    → Bars (cool_down target s until p) target s.spec.id s.public_ip until
unfolding cool_down
cool_down-Bars target s until p named pos = record {
  named = named;
  by_slot =
      λ t m same. cool_until-lookup target until s.spec.id p.slots t (subst (In t) kept.0 m) same;
  by_ip = λ valid.
      subst
        (λ m.
          (by_ip : Map Addr ℕ) × (u : ℕ) × (lookup target m ≡ some by_ip)
          × (lookup s.public_ip by_ip ≡ some u)
          × (until ≤ u))
        (sym kept.1)
        (set_ip_cooldown-lookup target s.public_ip until p.ip_cooldowns named valid pos);
}
  where
    kept :
        ((cool_down target s until p).slots
          ≡ update_slots s.spec.id (cool_until target until) p.slots)
        × ((cool_down target s until p).ip_cooldowns
            ≡ set_ip_cooldown target s.public_ip until p.ip_cooldowns)
    kept = unfold forget_preferred in ground (arith, is_empty_of_ne target named)

-- The same, where neither the slots nor the cooldowns of addresses have changed.
Bars-same :
    {p q : Pool} {target id : Bytes} {ip : Addr} {until : ℕ}
    → q.slots ≡ p.slots
    → q.ip_cooldowns ≡ p.ip_cooldowns
    → Bars p target id ip until
    → Bars q target id ip until
Bars-same {p} {q} {target} {id} {ip} {until} e f b = record {
  named = b.named;
  by_slot = λ s m same. b.by_slot s (subst (In s) e m) same;
  by_ip = λ valid.
      subst
        (λ c.
          (m : Map Addr ℕ) × (u : ℕ) × (lookup target c ≡ some m)
          × (lookup ip m ≡ some u)
          × (until ≤ u))
        (sym f) (b.by_ip valid);
}

apply_report-Bars :
    (r : ReportInput) (s : SlotState) (now : ℕ) (p : Pool)
    → r.target ≢ []
    → 0 < now + cooldown_of r p
    → Bars (apply_report r s now p).0 r.target s.spec.id s.public_ip (now + cooldown_of r p)
unfolding apply_report release_from_batches end_session rotate
apply_report-Bars r s now p named pos =
    Bars-same (ground arith) (ground arith)
      (cool_down-Bars r.target s (now + cooldown_of r p) p named pos)

-- A report that succeeds is the report of the slot that it names.
pub record Applied (r : ReportInput) (now : ℕ) (p q : Pool) (res : ReportResult) : Type 0 where
  pub slot : SlotState
  pub found : find_slot res.slot p.slots ≡ some slot
  pub pool : q ≡ (apply_report r slot now p).0
  pub until : res.until ≡ now + cooldown_of r p

report_found-ok :
    (r : ReportInput) (s : SlotState) (now : ℕ) (p : Pool) (res : ReportResult)
    → (report_found r s now p).1 ≡ ok res
    → ((report_found r s now p).0 ≡ (apply_report r s now p).0)
      × (res.slot ≡ s.spec.id)
      × (res.until ≡ now + cooldown_of r p)
unfolding report_found apply_report
report_found-ok r s now p res h =
    elim (Bool-cases (is_valid r.public_ip && not (s.public_ip == r.public_ip))) [
      | inl other ↦ absurd (cc (rw other at h))
      | inr same ↦
          let e : ok (apply_report r s now p).1 ≡ ok res = rw same at h in (rw same refl, cc, cc)
    ]

report_on-Applied :
    (r : ReportInput) (id : Bytes) (now : ℕ) (p : Pool) (res : ReportResult)
    → (report_on r id now p).1 ≡ ok res
    → Applied r now p (report_on r id now p).0 res
unfolding report_on
report_on-Applied r id now p res h = go (find_slot id p.slots) refl
  where
    go :
        (o : Option SlotState)
        → find_slot id p.slots ≡ o
        → Applied r now p (report_on r id now p).0 res
    go none e = absurd (cc (rw (e, report_on) at h))
    go (some s) e =
        let h' : (report_found r s now p).1 ≡ ok res = rw (e, report_on) at h in
        let (same, named, until) = report_found-ok r s now p res h' in
        let here : s.spec.id ≡ id =
          (bytes_beq_iff s.spec.id id).0 (In-find (λ t. t.spec.id == id) p.slots e).1 in
        record {
          slot = s;
          found = subst (λ k. find_slot k p.slots ≡ some s) (sym (named ∙ here)) e;
          pool = rw (e, report_on) same;
          until = until;
        }

report-Applied :
    (r : ReportInput) (now : ℕ) (p : Pool) (res : ReportResult)
    → (report r now p).1 ≡ ok res
    → Applied r now p (report r now p).0 res
unfolding report
report-Applied r now p res h = go (reported_slot r p) refl
  where
    go : (x : Result Error Bytes) → reported_slot r p ≡ x → Applied r now p (report r now p).0 res
    go (err e) k = absurd (cc (rw (k, report) at h))
    go (ok id) k =
        subst (λ q. Applied r now p q res) (rw (k, report) refl)
          (report_on-Applied r id now p res (rw (k, report) at h))

pub In-expired :
    (now : ℕ) (ss : List SlotState) (s : SlotState)
    → In s (map (expire_cooldowns now) ss)
    → (t : SlotState) × In t ss × (s ≡ expire_cooldowns now t)
In-expired now [] s m = absurd m
In-expired now (t ∷ ss) s (inl e) = (t, inl refl, e)
In-expired now (t ∷ ss) s (inr m) = let (u, i, e) = In-expired now ss s m in (u, inr i, e)

not_past_of_lt : (now until : ℕ) → now < until → not_past now until ≡ true
not_past_of_lt now until h = ground arith

not_empty_of_lookup :
    (ip : Addr) (m : Map Addr ℕ) (u : ℕ) → lookup ip m ≡ some u → is_empty m ≡ false
unfolding lookup
not_empty_of_lookup ip [] u h = cc
not_empty_of_lookup ip (e ∷ m) u h = refl

-- Expiry drops no cooldown that is still to come.
expire-Bars :
    (now until : ℕ) (p : Pool) (target id : Bytes) (ip : Addr)
    → now < until
    → Bars p target id ip until
    → Bars (expire now p) target id ip until
unfolding expire
expire-Bars now until p target id ip early b = record {
  named = b.named;
  by_slot = λ s m same. at_slot s (In-expired now p.slots s m) same;
  by_ip = λ valid.
      let (m, u, found, entry, late) = b.by_ip valid in
      let kept =
        lookup-retain_kept (λ _ t. not_past now t) ip m {v = u} entry
          (not_past_of_lt now u (omega arith)) in
      (
        retain (λ _ t. not_past now t) m,
        u,
        lookup-retain_kept (λ _ c. not (is_empty c)) target _ {v = retain (λ _ t. not_past now t) m}
            (lookup-map_values (retain (λ _ t. not_past now t)) target p.ip_cooldowns {v = m} found)
            (ground (arith, not_empty_of_lookup ip (retain (λ _ t. not_past now t) m) u kept)),
        kept,
        late,
      );
}
  where
    at_slot :
        (s : SlotState)
        → ((t : SlotState) × In t p.slots × (s ≡ expire_cooldowns now t))
        → s.spec.id ≡ id
        → lookup target s.cooldowns ≡ some until
    at_slot s (t, m, e) same =
        let same' : t.spec.id ≡ id =
          unfold expire_cooldowns in (sym (ap (λ x. x.spec.id) e) ∙ same) in
        subst (λ x. lookup target x.cooldowns ≡ some until) (sym e)
          (unfold expire_cooldowns in
            lookup-retain_kept (λ _ t. not_past now t) target t.cooldowns {v = until}
              (b.by_slot t m same') (not_past_of_lt now until early))

-- A selection from the very pool that a report of a slot at a destination left (with nothing in
-- between: a further report could set an earlier end), for that destination or health scope and before
-- the cooldown of the report ends, returns neither the slot nor any slot that has the slot's measured
-- address, whatever its policy; that holds for a recycled slot too.
pub report-pick_avoids :
    (r : ReportInput) (now : ℕ) (p : Pool) (res : ReportResult) (pol : Policy) (target : Bytes)
    (later draw : ℕ) (x : Picked)
    → (report r now p).1 ≡ ok res
    → r.target ≢ []
    → scope_of pol target ≡ r.target
    → later < res.until
    → (pick pol target later draw (report r now p).0).1 ≡ ok x
    → (s : SlotState) × (find_slot res.slot p.slots ≡ some s)
      × (¬ IsExit res.slot s.public_ip x.slot)
report-pick_avoids r now p res pol target later draw x h named scope early picked =
    (a.slot, a.found, λ exit. avoid (pick-Chosen q pol target later draw x picked) exit)
  where
    q : Pool
    q = (report r now p).0

    a : Applied r now p q res
    a = report-Applied r now p res h

    id_same : a.slot.spec.id ≡ res.slot
    id_same =
        (bytes_beq_iff a.slot.spec.id res.slot).0
          (In-find (λ t. t.spec.id == res.slot) p.slots a.found).1

    bars : Bars (expire later q) r.target res.slot a.slot.public_ip res.until
    bars = expire-Bars later res.until q r.target res.slot a.slot.public_ip early (
        subst (λ k. Bars q r.target k a.slot.public_ip res.until) id_same
          (subst (λ u. Bars q r.target a.slot.spec.id a.slot.public_ip u) (sym a.until)
            (subst (λ z. Bars z r.target a.slot.spec.id a.slot.public_ip (now + cooldown_of r p))
              (sym a.pool) (apply_report-Bars r a.slot now p named (omega (arith, a.until))))))

    refused :
        (other : Policy)
        → In x.slot (expire later q).slots
        → IsExit res.slot a.slot.public_ip x.slot
        → admits (expire later q) x.slot other (scope_of pol target) later ≡ false
    refused other m exit =
        subst (λ t. admits (expire later q) x.slot other t later ≡ false) (sym scope)
          (admits-Bars (expire later q) r.target res.slot a.slot.public_ip res.until later x.slot
            other bars early m exit)

    avoid :
        Chosen (expire later q) pol (scope_of pol target) later x.slot
        → ¬ IsExit res.slot a.slot.public_ip x.slot
    avoid (m, inl passes) exit = cc (refused pol m exit)
    avoid (m, inr again) exit = cc (refused (without_batch pol) m exit, again.admitted)
