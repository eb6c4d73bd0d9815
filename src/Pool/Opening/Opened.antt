-- ===== src/Pool/Opening/Opened.antt =====
-- What a caller of ensureOpen gets.
use global_egress.Shared.{
  ℕ, ◌≡◌, refl, ap, sym, subst, ◌∙◌, Bool, true, false, List, [], ◌∷◌, Option, none, some, Bytes,
  Bool-cases, inl, inr, if◌then◌else◌, bytes_eq, ◌==◌, Result, ok, err,
}
use global_egress.Pool.State.{SlotState, Pool, Error, cancelled, unknown_slot}
use global_egress.Pool.Budget.{
  update_slots, commit_tunnel_open, reserve_capacity, reserve_tunnel_open, update_slot,
}
use global_egress.Pool.Relays.{slot_of}
use global_egress.Pool.Opening.{
  Admission, live, wait, admitted, start_opening, end_opening, reserve_open, admit_open,
  finish_open, cancel_open, OpenTurn, succeeded, open_admitted, ensure_open,
}

-- The slot of the ID, if it is there, has a tunnel.
abbrev pub HasTunnel : Bytes → Pool → Type 0
HasTunnel id p = (s : SlotState) → slot_of id p.slots ≡ some s → s.tunnel ≡ true

abbrev Succeeds : Bytes → Pool × Result Error (Unit {0}) → Type 0
Succeeds id (q, ok u) = HasTunnel id q
Succeeds id (q, err e) = Unit

-- Who is told that there is a tunnel finds one.
abbrev Finds : Bytes → Pool × Result Error Admission → Type 0
Finds id (q, ok live) = HasTunnel id q
Finds id (q, ok wait) = Unit
Finds id (q, ok admitted) = Unit
Finds id (q, err e) = Unit

reserve_open-Finds : (id : Bytes) (now : ℕ) (p : Pool) → Finds id (reserve_open id now p)
unfolding reserve_open
reserve_open-Finds id now p = capacity_of (reserve_capacity p)
  where
    reserved : Pool × Result Error (Unit {0}) → Pool × Result Error Admission
    reserved (r, err e) = (r, err e)
    reserved (r, ok u) = (update_slot id start_opening r, ok admitted)

    budget_of : (out : Pool × Result Error (Unit {0})) → Finds id (reserved out)
    budget_of (r, err e) = tt
    budget_of (r, ok u) = tt

    made : Pool × Result Error (Unit {0}) → Pool × Result Error Admission
    made (q, err e) = (q, err e)
    made (q, ok u) = reserved (reserve_tunnel_open now q)

    capacity_of : (out : Pool × Result Error (Unit {0})) → Finds id (made out)
    capacity_of (q, err e) = tt
    capacity_of (q, ok u) = budget_of (reserve_tunnel_open now q)

admit_open-Finds :
    (id : Bytes) (gone : Bool) (now : ℕ) (p : Pool) → Finds id (admit_open id gone now p)
unfolding admit_open
admit_open-Finds id gone now p = found (slot_of id p.slots) refl
  where
    looked : Option SlotState → Pool × Result Error Admission
    looked none = (p, err unknown_slot)
    looked (some s) =
        if s.tunnel
        then (p, ok live)
        else if s.opening
        then (p, ok wait)
        else if gone
        then (p, err cancelled)
        else reserve_open id now p

    waiting_or :
        (opening gone : Bool)
        → Finds id (
            if opening
            then (p, ok wait)
            else if gone
            then (p, err cancelled)
            else reserve_open id now p)
    waiting_or true gone = tt
    waiting_or false true = tt
    waiting_or false false = reserve_open-Finds id now p

    same_slot : {s t : SlotState} → ◌≡◌ {A = Option SlotState} (some s) (some t) → t ≡ s
    same_slot e = cc

    open_or :
        (s : SlotState) (tunnel : Bool)
        → slot_of id p.slots ≡ some s
        → s.tunnel ≡ tunnel
        → Finds id (
            if tunnel
            then (p, ok live)
            else if s.opening
            then (p, ok wait)
            else if gone
            then (p, err cancelled)
            else reserve_open id now p)
    open_or s true e there = λ t h. ap (λ x. x.tunnel) (same_slot (sym e ∙ h)) ∙ there
    open_or s false e there = waiting_or s.opening gone

    found : (o : Option SlotState) → slot_of id p.slots ≡ o → Finds id (looked o)
    found none e = tt
    found (some s) e = open_or s s.tunnel e refl

-- After an Open that succeeded, whatever is found under the ID has a tunnel.
end_opening-HasTunnel :
    (id : Bytes) (now : ℕ) (ss : List SlotState) (s : SlotState)
    → slot_of id (update_slots id (end_opening true now) ss) ≡ some s
    → s.tunnel ≡ true
unfolding update_slots
end_opening-HasTunnel id now [] s h = absurd (nothing h)
  where
    nothing : ◌≡◌ {A = Option SlotState} none (some s) → ⊥
    nothing e = cc
end_opening-HasTunnel id now (t ∷ ts) s h = elim (Bool-cases (t.spec.id == id)) [
  | inl e ↦ ap (λ x. x.tunnel) (sym (same (rw (e, e) at h)))
  | inr e ↦ end_opening-HasTunnel id now ts s (rw (e, e) at h)
]
  where
    same :
        ◌≡◌ {A = Option SlotState} (some (end_opening true now t)) (some s)
        → end_opening true now t ≡ s
    same q = cc

open_admitted-Succeeds : (id : Bytes) (t : OpenTurn) (p : Pool) → Succeeds id (open_admitted id t p)
unfolding open_admitted finish_open
open_admitted-Succeeds id t p = either t.gone_after
  where
    landing : Pool
    landing = t.meanwhile (commit_tunnel_open t.contacted_at p)

    by_open :
        (r : Result Error (Unit {0}))
        → Succeeds id (finish_open id (succeeded r) t.opened_at landing, r)
    by_open (ok u) = end_opening-HasTunnel id t.opened_at landing.slots
    by_open (err e) = tt

    either :
        (b : Bool)
        → Succeeds id (
            if b
            then (cancel_open id p, err cancelled)
            else (finish_open id (succeeded t.opened) t.opened_at landing, t.opened))
    either true = tt
    either false = by_open t.opened

ensure_open-Succeeds :
    (id : Bytes) (ts : List OpenTurn) (p : Pool) → Succeeds id (ensure_open id ts p)
unfolding ensure_open
ensure_open-Succeeds id [] p = tt
ensure_open-Succeeds id (t ∷ ts) p =
    admission (admit_open id t.gone t.at p) (admit_open-Finds id t.gone t.at p)
      (λ q. ensure_open-Succeeds id ts q)
  where
    turn : Pool × Result Error Admission → Pool × Result Error (Unit {0})
    turn (q, err e) = (q, err e)
    turn (q, ok live) = (q, ok tt)
    turn (q, ok wait) =
        if t.gone_waiting then (t.waited q, err cancelled) else ensure_open id ts (t.waited q)
    turn (q, ok admitted) = open_admitted id t q

    waited :
        (q : Pool) (b : Bool)
        → Succeeds id (ensure_open id ts (t.waited q))
        → Succeeds id (if b then (t.waited q, err cancelled) else ensure_open id ts (t.waited q))
    waited q true k = tt
    waited q false k = k

    admission :
        (out : Pool × Result Error Admission)
        → Finds id out
        → ((q : Pool) → Succeeds id (ensure_open id ts q))
        → Succeeds id (turn out)
    admission (q, err e) found rec = tt
    admission (q, ok live) found rec = found
    admission (q, ok wait) found rec = waited q t.gone_waiting (rec (t.waited q))
    admission (q, ok admitted) found rec = open_admitted-Succeeds id t q

-- When ensureOpen succeeds, the slot that it was asked for, if the pool still lists it, has a tunnel at
-- that moment, however many Opens of others it waited for and whatever other requests did to the pool
-- meanwhile.
pub ensure_open-HasTunnel :
    (id : Bytes) (turns : List OpenTurn) (p : Pool)
    → (ensure_open id turns p).1 ≡ ok tt
    → HasTunnel id (ensure_open id turns p).0
ensure_open-HasTunnel id turns p h =
    subst (λ r. Succeeds id ((ensure_open id turns p).0, r)) h (ensure_open-Succeeds id turns p)
