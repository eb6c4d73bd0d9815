-- ===== src/Proxy/Relay.antt =====
-- copyWithIdle and relay in internal/proxy/proxy.go, on what the reads and writes of a session return.
pub mod Sums
use global_egress.Shared.{
  ℕ, ◌+◌, Bool, true, false, List, [], ◌∷◌, Option, none, some, if◌then◌else◌, nat_eq, ◌==◌,
}

pub data Ending : Type 0 where
  clean read_failed write_failed : Ending

-- One turn of the loop: how many bytes Read returned and whether with an error (`true` for io.EOF),
-- how many of them Write took and whether it failed.
pub record Turn : Type 0 where
  pub read : ℕ
  pub read_error : Option Bool
  pub written : ℕ
  pub write_error : Bool

-- The loop of copyWithIdle, from the total so far; a stream without further turns is at its end.
unfoldable pub copy_loop : ℕ → List Turn → ℕ × Ending
copy_loop total [] = (total, clean)
copy_loop total (t ∷ ts) =
    let counted = if t.read == 0 then total else total + t.written in
    let rest = copy_loop counted ts in
    if t.read == 0
    then elim t.read_error [
      | none ↦ rest
      | some eof ↦ (counted, if eof then clean else read_failed)
    ]
    else if t.write_error
    then (counted, write_failed)
    else elim t.read_error [
      | none ↦ rest
      | some eof ↦ (counted, if eof then clean else read_failed)
    ]

-- io.Copy, which the source calls where there is no idle timeout, is an argument: what it returns on
-- the turns of a direction.
module _ (io_copy : List Turn → ℕ × Ending) (idle_timeout : ℕ) where
  -- copyWithIdle
  unfoldable pub copy_with_idle : List Turn → ℕ × Ending
  unfolding copy_loop
  copy_with_idle ts = if idle_timeout == 0 then io_copy ts else copy_loop 0 ts

  -- relay: the bytes that were sent and those that were received.
  unfoldable pub relay : List Turn → List Turn → ℕ × ℕ
  unfolding copy_with_idle
  relay upload download = ((copy_with_idle upload).0, (copy_with_idle download).0)
