-- ===== src/Pool/Opening/Upkeep.antt =====
-- Probes and housekeeping, in internal/pool/inventory.go, keep what the openings keep.
use global_egress.Shared.{
  ℕ, ◌+◌, ◌≤◌, ◌≡◌, ◌≢◌, refl, ap, sym, ◌∙◌, Bool, true, false, List, [], ◌∷◌, Bytes, arith, All,
  Bool-cases, inl, inr, if◌then◌else◌, count_if, Result, ok, err, nat_eq, ◌==◌,
}
use global_egress.Pool.State.{SlotState, Pool, Error}
use global_egress.Pool.Budget.{
  close_slot, open_count, reserve_capacity, reserve_tunnel_open, rollback_tunnel_open,
}
use global_egress.Pool.Setup.Ascending.{HasOwnIds}
use global_egress.Pool.Opening.{
  admit_probe, release_probe_capacity, cancel_probe, is_stale, close_stale, close_idle,
}
use global_egress.Pool.Opening.Flights.{holds, IsApart, close_slot-holds}
use global_egress.Pool.Opening.Sound.{
  AreSound, HasRoom, HasRoom-Aside, Makes, Aside-AreSound, reserve_capacity-Makes,
  reserve_tunnel_open-Aside, close_slot-keeps,
}

abbrev IsSoundAt : Pool → List Bytes → Type 0
IsSoundAt p flights = AreSound (record { pool = p; flights = flights })

probed :
    (p : Pool) (flights : List Bytes)
    → IsSoundAt p flights
    → HasRoom p
    → IsSoundAt (record p { probe_tunnels = p.probe_tunnels + 1 }) flights
unfolding open_count
probed p flights sound room = record {
  own = sound.own;
  apart = sound.apart;
  within = ground (arith, room);
  single = sound.single;
  flown = sound.flown;
}

pub admit_probe-AreSound :
    (gone : Bool) (now : ℕ) (p : Pool) (flights : List Bytes)
    → IsSoundAt p flights
    → IsSoundAt (admit_probe gone now p).0 flights
unfolding admit_probe
admit_probe-AreSound true now p flights sound = sound
admit_probe-AreSound false now p flights sound =
    made-AreSound (reserve_capacity p) (reserve_capacity-Makes p flights sound)
  where
    reserved : Pool × Result Error (Unit {0}) → Pool × Result Error (Unit {0})
    reserved (r, err e) = (r, err e)
    reserved (r, ok u) = (record r { probe_tunnels = r.probe_tunnels + 1 }, ok tt)

    reserved-AreSound :
        (r : Pool) (outcome : Result Error (Unit {0}))
        → IsSoundAt r flights
        → HasRoom r
        → IsSoundAt (reserved (r, outcome)).0 flights
    reserved-AreSound r (err e) fine room = fine
    reserved-AreSound r (ok u) fine room = probed r flights fine room

    made : Pool × Result Error (Unit {0}) → Pool × Result Error (Unit {0})
    made (q, err e) = (q, err e)
    made (q, ok u) = reserved (reserve_tunnel_open now q)

    made-AreSound :
        (out : Pool × Result Error (Unit {0}))
        → Makes flights p out
        → IsSoundAt (made out).0 flights
    made-AreSound (q, err e) fine = fine
    made-AreSound (q, ok u) (fine, room, _) =
        let a = reserve_tunnel_open-Aside now q in
        reserved-AreSound (reserve_tunnel_open now q).0 (reserve_tunnel_open now q).1
          (Aside-AreSound q (reserve_tunnel_open now q).0 flights a fine)
          (HasRoom-Aside q (reserve_tunnel_open now q).0 a room)

pub release_probe_capacity-AreSound :
    (p : Pool) (flights : List Bytes)
    → IsSoundAt p flights
    → IsSoundAt (release_probe_capacity p) flights
unfolding release_probe_capacity open_count
release_probe_capacity-AreSound p flights sound = record {
  own = sound.own;
  apart = sound.apart;
  within = ground (arith, sound.within);
  single = sound.single;
  flown = sound.flown;
}

pub cancel_probe-AreSound :
    (p : Pool) (flights : List Bytes) → IsSoundAt p flights → IsSoundAt (cancel_probe p) flights
unfolding cancel_probe rollback_tunnel_open
cancel_probe-AreSound p flights sound =
    release_probe_capacity-AreSound (rollback_tunnel_open p) flights (
      Aside-AreSound p (rollback_tunnel_open p) flights
        (record { opts = refl; slots = refl; entries = refl; probes = refl }) sound)

module _ (timeout now : ℕ) where
  abbrev swept : SlotState → SlotState
  swept s = if is_stale timeout now s then close_slot s else s

  swept-keeps :
      (s : SlotState)
      → ((swept s).spec ≡ s.spec)
        × ((swept s).opening ≡ s.opening)
        × (IsApart s → IsApart (swept s))
        × (holds s ≡ false → holds (swept s) ≡ false)
  swept-keeps s = elim (Bool-cases (is_stale timeout now s)) [
    | inl e ↦
        rw e (
          (close_slot-keeps s).0,
          (close_slot-keeps s).1,
          (close_slot-keeps s).2,
          close_slot-holds s,
        )
    | inr e ↦ rw e (refl, refl, (λ a. a), (λ h. h))
  ]

  close_stale-All :
      (P Q : SlotState → Type 0) (ss : List SlotState)
      → ((s : SlotState) → P s → Q (swept s))
      → All P ss
      → All Q (close_stale timeout now ss)
  unfolding close_stale
  close_stale-All P Q [] step h = tt
  close_stale-All P Q (s ∷ ss) step (p, h) = (step s p, close_stale-All P Q ss step h)

  close_stale-HasOwnIds :
      (ss : List SlotState) → HasOwnIds ss → HasOwnIds (close_stale timeout now ss)
  unfolding close_stale
  close_stale-HasOwnIds [] own = tt
  close_stale-HasOwnIds (s ∷ ss) (o, own) = (
    close_stale-All (λ t. s.spec.id ≢ t.spec.id) (λ t. (swept s).spec.id ≢ t.spec.id) ss
        (λ t d same.
          d (ap (λ x. x.id) (sym (swept-keeps s).0) ∙ same ∙ ap (λ x. x.id) (swept-keeps t).0))
        o,
    close_stale-HasOwnIds ss own,
  )

  close_stale-count :
      (ss : List SlotState) → count_if holds (close_stale timeout now ss) ≤ count_if holds ss
  unfolding close_stale
  close_stale-count [] = omega arith
  close_stale-count (s ∷ ss) =
      counted (holds s) (holds (swept s)) (swept-keeps s).3 (close_stale-count ss)
    where
      counted :
          {n m : ℕ} (a b : Bool)
          → (a ≡ false → b ≡ false)
          → n ≤ m
          → (if b then 1 else 0) + n ≤ (if a then 1 else 0) + m
      counted a b k h = ground (arith, k, h)

  pub close_idle-AreSound :
      (p : Pool) (flights : List Bytes)
      → IsSoundAt p flights
      → IsSoundAt (close_idle timeout now p) flights
  unfolding close_idle open_count
  close_idle-AreSound p flights sound = either (timeout == 0)
    where
      closed : IsSoundAt (record p { slots = close_stale timeout now p.slots }) flights
      closed = record {
        own = close_stale-HasOwnIds p.slots sound.own;
        apart = close_stale-All IsApart IsApart p.slots (λ s. (swept-keeps s).2) sound.apart;
        within = ground (arith, sound.within, close_stale-count p.slots);
        single = sound.single;
        flown = λ id m.
            close_stale-All (λ s. s.spec.id ≡ id → s.opening ≡ true)
              (λ s. s.spec.id ≡ id → s.opening ≡ true) p.slots
              (λ s up named.
                (swept-keeps s).1 ∙ up (ap (λ x. x.id) (sym (swept-keeps s).0) ∙ named))
              (sound.flown id m);
      }

      either :
          (b : Bool)
          → IsSoundAt
              (if b then p else record p { slots = close_stale timeout now p.slots })
              flights
      either true = sound
      either false = closed
