-- ===== src/Pool/Acquire/Backoff.antt =====
-- A slot whose dialer failed is left alone for a while, and for no longer than half an hour.
use global_egress.Shared.{
  ℕ, zero, suc, ◌+◌, ◌*◌, ◌%◌, ◌^◌, ◌≤◌, ◌<◌, ◌≡◌, ◌≢◌, ◌⊎◌, inl, inr, refl, ap, sym, ◌∙◌, List, [],
  ◌∷◌, Bytes, bytes_eq, bytes_beq_iff, nat_eq, arith, min, ◌==◌, In, Bool-cases, ok,
}
use global_egress.Policy.{Policy}
use global_egress.Pool.State.{SlotState, Pool, Error}
use global_egress.Pool.Cooldowns.{expire, expire_cooldowns}
use global_egress.Pool.Budget.{close_slot, update_slots}
use global_egress.Pool.Eligible.{without_batch}
use global_egress.Pool.Eligible.Serves.{Serves}
use global_egress.Pool.Pick.{Picked, pick, scope_of}
use global_egress.Pool.Pick.Choice.{Recycled}
use global_egress.Pool.Pick.Whole.{pick-Serves}
use global_egress.Pool.Feedback.Blocks.{In-expired}
use global_egress.Pool.Acquire.{minutes, back_off, fail_slot, note_failure}

-- Five doublings.
doubled_bounds : (base k : ℕ) → (base ≤ base * 2 ^ min k 5) × (base * 2 ^ min k 5 ≤ 32 * base)
doubled_bounds base zero = omega arith
doubled_bounds base (suc zero) = omega arith
doubled_bounds base (suc (suc zero)) = omega arith
doubled_bounds base (suc (suc (suc zero))) = omega arith
doubled_bounds base (suc (suc (suc (suc zero)))) = omega arith
doubled_bounds base (suc (suc (suc (suc (suc k))))) =
    let five : min (suc (suc (suc (suc (suc k))))) 5 ≡ 5 = omega arith in rw five (omega arith)

back_off-value : (now max d : ℕ) → d < 2 ^ 63 → back_off now max d ≡ now + min d max
unfolding back_off
back_off-value now max d h =
    let whole : d % 2 ^ 64 ≡ d = omega (arith, h) in rw whole (ground arith)

close_slot-disabled_until : (s : SlotState) → (close_slot s).disabled_until ≡ s.disabled_until
unfolding close_slot
close_slot-disabled_until s = ground arith

close_slot-id : (s : SlotState) → (close_slot s).spec.id ≡ s.spec.id
unfolding close_slot
close_slot-id s = ground arith

fail_slot-disabled_until :
    (base now : ℕ) (e : Error) (s : SlotState)
    → (fail_slot base e now s).disabled_until
      ≡ back_off now (minutes 30) (base * 2 ^ min s.failures 5)
unfolding fail_slot
fail_slot-disabled_until base now e s = close_slot-disabled_until _

-- A failure backs a slot off for at least the base and at most half an hour.
fail_slot-bounds :
    (base now : ℕ) (e : Error) (s : SlotState)
    → base < 2 ^ 58
    → (now + min base (minutes 30) ≤ (fail_slot base e now s).disabled_until)
      × ((fail_slot base e now s).disabled_until ≤ now + minutes 30)
fail_slot-bounds base now e s small =
    let (low, high) = doubled_bounds base s.failures in
    let backed = back_off-value now (minutes 30) (base * 2 ^ min s.failures 5) (omega arith) in
    let at = fail_slot-disabled_until base now e s ∙ backed in
    (omega (arith, at), omega (arith, at))

fail_slot-id :
    (base now : ℕ) (e : Error) (s : SlotState) → (fail_slot base e now s).spec.id ≡ s.spec.id
unfolding fail_slot
fail_slot-id base now e s = close_slot-id _

In-failed :
    (base now : ℕ) (e : Error) (id : Bytes) (ss : List SlotState) (s : SlotState)
    → base < 2 ^ 58
    → In s (update_slots id (fail_slot base e now) ss)
    → s.spec.id ≡ id
    → now + min base (minutes 30) ≤ s.disabled_until
unfolding update_slots
In-failed base now e id [] s small m same = absurd m
In-failed base now e id (t ∷ ss) s small (inr m) same = In-failed base now e id ss s small m same
In-failed base now e id (t ∷ ss) s small (inl here) same = elim (Bool-cases (t.spec.id == id)) [
  | inl named ↦
      let at : s ≡ fail_slot base e now t = here ∙ rw named refl in
      rw at ((fail_slot-bounds base now e t small).0)
  | inr other ↦
      let at : s ≡ t = here ∙ rw other refl in
      absurd (cc (other, (bytes_beq_iff t.spec.id id).1 (sym (ap (λ x. x.spec.id) at) ∙ same)))
]

In-failed_pool :
    (p : Pool) (id : Bytes) (e : Error) (now later : ℕ) (s : SlotState)
    → p.opts.failure_backoff < 2 ^ 58
    → In s (expire later (note_failure id e now p)).slots
    → s.spec.id ≡ id
    → now + min p.opts.failure_backoff (minutes 30) ≤ s.disabled_until
unfolding note_failure expire expire_cooldowns
In-failed_pool p id e now later s small m same =
    let (t, i, at) =
      In-expired later (update_slots id (fail_slot p.opts.failure_backoff e now) p.slots) s m in
    rw at (
      In-failed p.opts.failure_backoff now e id p.slots t small i
        (sym (ap (λ x. x.spec.id) at) ∙ same))

-- A selection from the very pool that a failure of a slot's dialer left (with nothing in between: a
-- report of the slot or a probe that succeeds could set an earlier end), before the configured backoff
-- (half an hour at most; it is below 2 ^ 58 ns, about nine years) has passed, does not return the slot,
-- whatever its policy, destination or session; that holds for a recycled slot too.
pub note_failure-pick_avoids :
    (p : Pool) (id : Bytes) (e : Error) (now : ℕ) (pol : Policy) (target : Bytes) (later draw : ℕ)
    (x : Picked)
    → p.opts.failure_backoff < 2 ^ 58
    → later < now + min p.opts.failure_backoff (minutes 30)
    → (pick pol target later draw (note_failure id e now p)).1 ≡ ok x
    → x.slot.spec.id ≢ id
note_failure-pick_avoids p id e now pol target later draw x small early picked same =
    no_lt (served (pick-Serves q pol target later draw x picked)) early
  where
    q : Pool
    q = note_failure id e now p

    no_lt :
        now + min p.opts.failure_backoff (minutes 30) ≤ later
        → later < now + min p.opts.failure_backoff (minutes 30)
        → ⊥
    no_lt a b = omega (arith, a, b)

    served :
        In x.slot (expire later q).slots
          × (Serves (expire later q) x.slot pol (scope_of pol target) later
              ⊎ (Recycled (expire later q) pol (scope_of pol target) later x.slot
                  × Serves (expire later q) x.slot (without_batch pol) (scope_of pol target) later))
        → now + min p.opts.failure_backoff (minutes 30) ≤ later
    served (m, inl a) =
        omega (arith, a.enabled, In-failed_pool p id e now later x.slot small m same)
    served (m, inr (r, a)) =
        omega (arith, a.enabled, In-failed_pool p id e now later x.slot small m same)
