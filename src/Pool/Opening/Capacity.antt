-- ===== src/Pool/Opening/Capacity.antt =====
-- The limit on open tunnels, over openings that interleave.
use global_egress.Shared.{
  ℕ, ◌≤◌, ◌≡◌, ◌≢◌, refl, sym, subst, ◌∙◌, Bool, true, false, not, List, [], ◌∷◌, Bytes, arith, All,
  Bool-cases, inl, inr, In, count_if, bytes_eq, ◌==◌, bytes_beq_iff, Result, ok, err, In-filter,
  nat_eq,
}
use global_egress.Pool.State.{SlotState, Pool, Error}
use global_egress.Pool.Budget.{
  update_slots, update_slot, open_count, commit_tunnel_open, rollback_tunnel_open,
}
use global_egress.Pool.Setup.Ascending.{HasOwnIds}
use global_egress.Pool.Opening.{
  Admission, live, wait, admitted, stop_opening, end_opening, admit_open, cancel_open, finish_open,
}
use global_egress.Pool.Opening.{admit_probe, cancel_probe, release_probe_capacity, close_idle}
use global_egress.Pool.Opening.Upkeep.{
  admit_probe-AreSound, cancel_probe-AreSound, release_probe_capacity-AreSound, close_idle-AreSound,
}
use global_egress.Pool.Opening.Flights.{
  holds, IsApart, HasOwnIds-update_slots, update-count, All-turn_slots,
}
use global_egress.Pool.Opening.Sound.{
  Openings, commit_tunnel_open-Aside, Aside-AreSound, IsOpening-update, without, IsWithin,
  IsOpening, AreSingle, AreSound,
}
use global_egress.Pool.Opening.Admitted.{All-both, admit_open-Admits, Admits}

-- A step of some caller of ensureOpen, of a probe, or of housekeep's sweep of idle tunnels.
pub data OpenStep (o : Openings) : Openings → Type 0 where
  takes_off :
      (id : Bytes) (now : ℕ)
      → (admit_open id false now o.pool).1 ≡ ok admitted
      → OpenStep o (record { pool = (admit_open id false now o.pool).0; flights = id ∷ o.flights })
  looks :
      (id : Bytes) (gone : Bool) (now : ℕ)
      → (admit_open id gone now o.pool).1 ≢ ok admitted
      → OpenStep o (record o { pool = (admit_open id gone now o.pool).0 })
  contacts : (now : ℕ) → OpenStep o (record o { pool = commit_tunnel_open now o.pool })
  turns_back :
      (id : Bytes)
      → In id o.flights
      → OpenStep o (record { pool = cancel_open id o.pool; flights = without id o.flights })
  lands :
      (id : Bytes) (opened : Bool) (now : ℕ)
      → In id o.flights
      → OpenStep o
          (record { pool = finish_open id opened now o.pool; flights = without id o.flights })
  probes :
      (gone : Bool) (now : ℕ) → OpenStep o (record o { pool = (admit_probe gone now o.pool).0 })
  gives_up_probe : OpenStep o (record o { pool = cancel_probe o.pool })
  ends_probe : OpenStep o (record o { pool = release_probe_capacity o.pool })
  sweeps : (timeout now : ℕ) → OpenStep o (record o { pool = close_idle timeout now o.pool })

pub data Opens (o : Openings) : Openings → Type 0 where
  here : Opens o o
  next : {m n : Openings} → Opens o m → OpenStep m n → Opens o n

All-mapped :
    (P Q : SlotState → Type 0) (ss : List SlotState)
    → ((s : SlotState) → P s → Q s)
    → All P ss
    → All Q ss
All-mapped P Q [] step h = tt
All-mapped P Q (s ∷ ss) step (p, h) = (step s p, All-mapped P Q ss step h)

AreSingle-without : (id : Bytes) (ids : List Bytes) → AreSingle ids → AreSingle (without id ids)
AreSingle-without id [] h = tt
AreSingle-without id (x ∷ ids) (new, h) = elim (Bool-cases (x == id)) [
  | inl e ↦ rw e (AreSingle-without id ids h)
  | inr e ↦ rw e ((λ m. new (In-filter (λ y. not (y == id)) ids m).0), AreSingle-without id ids h)
]

-- A flight that ends leaves no more behind than it took.
landed :
    (id : Bytes) (f : SlotState → SlotState) (p : Pool) (flights : List Bytes)
    → ((s : SlotState) → (f s).spec ≡ s.spec)
    → ((s : SlotState) → s.opening ≡ true → IsApart s → IsApart (f s))
    → AreSound (record { pool = p; flights = flights })
    → In id flights
    → AreSound (record { pool = update_slot id f p; flights = without id flights })
unfolding open_count
landed id f p flights keeps parts sound m = record {
  own = HasOwnIds-update_slots id f p.slots keeps sound.own;
  apart =
      All-turn_slots (λ s. (s.spec.id ≡ id → s.opening ≡ true) × IsApart s) IsApart id f p.slots
        (λ s named (up, a). parts s (up named) a) (λ s x. x.1)
        (All-both (λ s. s.spec.id ≡ id → s.opening ≡ true) IsApart p.slots (sound.flown id m)
          sound.apart);
  within = ground (arith, sound.within, fewer);
  single = AreSingle-without id flights sound.single;
  flown = λ other there.
      let (before, differs) = In-filter (λ x. not (x == id)) flights there in
      IsOpening-update id other f p.slots keeps
        (λ s matched named _. absurd (clash other differs (sym named ∙ matched)))
        (sound.flown other before);
}
  where
    fewer : count_if holds (update_slots id f p.slots) ≤ count_if holds p.slots
    fewer = update-count id f p.slots (
        All-mapped (λ s. s.spec.id ≡ id → s.opening ≡ true)
          (λ s. s.spec.id ≡ id → holds s ≡ false → holds (f s) ≡ false) p.slots
          (λ s up named none_held. absurd (held s (up named) none_held)) (sound.flown id m))
      where
        held : (s : SlotState) → s.opening ≡ true → holds s ≡ false → ⊥
        held s up e = ground (arith, up, e)

    clash : (other : Bytes) → not (other == id) ≡ true → other ≡ id → ⊥
    clash other differs same = ground (arith, differs, (bytes_beq_iff other id).1 same)

OpenStep-AreSound : {o n : Openings} → OpenStep o n → AreSound o → AreSound n
unfolding cancel_open finish_open rollback_tunnel_open
OpenStep-AreSound {o} (takes_off id now h) sound =
    subst (λ r. Admits o.flights id ((admit_open id false now o.pool).0, r)) h
      (admit_open-Admits id false now o.pool o.flights sound)
OpenStep-AreSound {o} (looks id gone now h) sound =
    other (admit_open id gone now o.pool).1 h (admit_open-Admits id gone now o.pool o.flights sound)
  where
    q : Pool
    q = (admit_open id gone now o.pool).0

    other :
        (r : Result Error Admission)
        → r ≢ ok admitted
        → Admits o.flights id (q, r)
        → AreSound (record { pool = q; flights = o.flights })
    other (ok admitted) no_turn a = absurd (no_turn refl)
    other (ok live) no_turn a = a
    other (ok wait) no_turn a = a
    other (err e) no_turn a = a
OpenStep-AreSound {o} (contacts now) sound =
    Aside-AreSound o.pool (commit_tunnel_open now o.pool) o.flights
      (commit_tunnel_open-Aside now o.pool) sound
OpenStep-AreSound {o} (turns_back id m) sound =
    landed id stop_opening (rollback_tunnel_open o.pool) o.flights (λ s. refl)
      (λ s up a. ground (arith, up, a))
      (Aside-AreSound o.pool (rollback_tunnel_open o.pool) o.flights
        (record { opts = refl; slots = refl; entries = refl; probes = refl }) sound)
      m
OpenStep-AreSound {o} (lands id true now m) sound =
    landed id (end_opening true now) o.pool o.flights (λ s. refl) (λ s up a. refl) sound m
OpenStep-AreSound {o} (lands id false now m) sound =
    landed id (end_opening false now) o.pool o.flights (λ s. refl) (λ s up a. ground (arith, up, a))
      sound m
OpenStep-AreSound {o} (probes gone now) sound = admit_probe-AreSound gone now o.pool o.flights sound
OpenStep-AreSound {o} gives_up_probe sound = cancel_probe-AreSound o.pool o.flights sound
OpenStep-AreSound {o} ends_probe sound = release_probe_capacity-AreSound o.pool o.flights sound
OpenStep-AreSound {o} (sweeps timeout now) sound =
    close_idle-AreSound timeout now o.pool o.flights sound

Opens-AreSound : {o n : Openings} → AreSound o → Opens o n → AreSound n
Opens-AreSound sound here = sound
Opens-AreSound sound (next before step) = OpenStep-AreSound step (Opens-AreSound sound before)

-- From a pool whose slots have distinct IDs, with no Open in flight, no slot both open and opening, and
-- no more tunnels than `MaxActive`: however many callers and probes open tunnels, whenever idle tunnels are
-- swept, and in whatever order their sections fall, the tunnels of slots, entries and probes that are open or being opened are never
-- more than `MaxActive` (0 is no limit), no slot is being opened by two callers at once, no slot with
-- a tunnel is being opened, and every slot in flight is marked as opening.
pub Opens-IsWithin :
    {o n : Openings}
    → HasOwnIds o.pool.slots
    → All IsApart o.pool.slots
    → IsWithin o.pool
    → o.flights ≡ []
    → Opens o n
    → IsWithin n.pool
      × AreSingle n.flights
      × All IsApart n.pool.slots
      × ((id : Bytes) → In id n.flights → IsOpening n.pool.slots id)
Opens-IsWithin {o} {n} own apart within idle steps = (end.within, end.single, end.apart, end.flown)
  where
    end : AreSound n
    end =
        Opens-AreSound
          (record {
            own = own;
            apart = apart;
            within = within;
            single = subst AreSingle (sym idle) tt;
            flown = λ id m. absurd (subst (In id) idle m);
          })
          steps
