-- ===== src/Proxy/Relay/Sums.antt =====
-- What the byte counts of a session amount to.
use global_egress.Shared.{
  ℕ, ◌+◌, ◌<◌, ◌≤◌, refl, ◌≡◌, false, not, ◌&&◌, List, [], ◌∷◌, none, some, if◌then◌else◌, nat_eq,
  ◌==◌, arith, All,
}
use global_egress.Proxy.Relay.{
  Ending, clean, read_failed, write_failed, Turn, copy_loop, copy_with_idle,
}

-- Write takes no more than it is given, and less only with an error.
pub record IsTurn (t : Turn) : Type 0 where
  pub at_most : t.written ≤ t.read
  pub all_or_error : t.write_error ≡ false → t.written ≡ t.read

abbrev pub read_in : List Turn → ℕ
read_in [] = 0
read_in (t ∷ ts) = t.read + read_in ts

-- The turns up to the first that fails or ends.
abbrev pub played : List Turn → List Turn
played [] = []
played (t ∷ ts) =
    let rest = played ts in
    elim t.read_error [
      | some eof ↦ t ∷ []
      | none ↦ if not (t.read == 0) && t.write_error then t ∷ [] else t ∷ rest
    ]

-- The bytes that Write took, over the turns that read any.
abbrev pub written_in : List Turn → ℕ
written_in [] = 0
written_in (t ∷ ts) = (if t.read == 0 then 0 else t.written) + written_in ts

-- How a turn ends its direction, if it does.
abbrev turn_ending : Turn → Ending
turn_ending t =
    if not (t.read == 0) && t.write_error
    then write_failed
    else elim t.read_error [ none ↦ clean | some eof ↦ if eof then clean else read_failed ]

-- How the last of the turns ends its direction.
abbrev pub ending_of : List Turn → Ending
ending_of [] = clean
ending_of (t ∷ []) = turn_ending t
ending_of (t ∷ u ∷ ts) = ending_of (u ∷ ts)

ending_of_later :
    (t : Turn) (ts : List Turn) → turn_ending t ≡ clean → ending_of (t ∷ ts) ≡ ending_of ts
ending_of_later t [] h = h
ending_of_later t (u ∷ ts) h = refl

copy_loop-ending_of : (total : ℕ) (ts : List Turn) → (copy_loop total ts).1 ≡ ending_of (played ts)
unfolding copy_loop
copy_loop-ending_of total [] = refl
copy_loop-ending_of total (t ∷ ts) = ground (
  arith,
  copy_loop-ending_of total ts,
  copy_loop-ending_of (total + t.written) ts,
  ending_of_later t (played ts),
)

copy_loop-played :
    (total : ℕ) (ts : List Turn)
    → All IsTurn ts
    → let (count, ending) = copy_loop total ts in
      (count ≡ total + written_in (played ts))
      × (written_in (played ts) ≤ read_in (played ts))
      × (ending ≡ clean → written_in (played ts) ≡ read_in (played ts))
unfolding copy_loop
copy_loop-played total [] turns = (omega arith, omega arith, λ e. refl)
copy_loop-played total (t ∷ ts) (turn, turns) =
    let stay = copy_loop-played total ts turns in
    let grow = copy_loop-played (total + t.written) ts turns in
    ground (arith, turn.at_most, turn.all_or_error, stay, grow)

-- With an idle timeout, the count of a direction is exactly what Write took of it, up to the first turn
-- that fails or ends: of a failed write what it took is counted and the rest is not. It is never more
-- than what was read, and exactly that when the direction ends without an error; it ends as the last of
-- these turns does: with the error of its write, else with that of its read, of which io.EOF is none.
pub copy_with_idle-played :
    (io_copy : List Turn → ℕ × Ending) (idle_timeout : ℕ) (ts : List Turn)
    → 0 < idle_timeout
    → All IsTurn ts
    → let (count, ending) = copy_with_idle io_copy idle_timeout ts in
      (count ≡ written_in (played ts))
      × (count ≤ read_in (played ts))
      × (ending ≡ clean → count ≡ read_in (played ts))
      × (ending ≡ ending_of (played ts))
unfolding copy_with_idle
copy_with_idle-played io_copy idle_timeout ts idle turns =
    let l = copy_loop-played 0 ts turns in ground (arith, idle, l, copy_loop-ending_of 0 ts)
