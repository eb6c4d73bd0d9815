-- ===== src/Pool/Entries.antt =====
-- internal/pool/entry.go: the order in which entry tunnels are tried and the failures held against
-- them; and what internal/pool/pool.go charges a finished or failed connection to.
pub mod Order
use global_egress.Shared.{
  ℕ, zero, suc, ◌+◌, ◌-◌, ◌*◌, ◌^◌, Bool, true, false, not, ◌&&◌, ◌||◌, List, [], ◌∷◌, Option, none,
  some, Bytes, bytes_eq, nat_eq, ◌==◌, if◌then◌else◌, ltb, leb, min, filter, lookup, or_default,
  is_empty, u64, bytes_leb, Addr, is_valid,
}
use global_egress.Georoute.{cost}
use global_egress.Pool.State.{EntryState, SlotState, Pool, Error, Session}
use global_egress.Pool.Budget.{update_slot, update_slots}
use global_egress.Pool.Pick.{find_slot}
use global_egress.Pool.Acquire.{Lease, minutes, back_off, note_failure}

-- entryState.score: nanoseconds, measured or guessed from the distance.
unfoldable pub score : EntryState → Bytes → ℕ
unfolding cost
score e exit_country =
    or_default (lookup exit_country e.latency) ((cost e.country exit_country + 1) * 250_000_000)

-- The less function of the sort.
unfoldable pub entry_less : Bytes → EntryState → EntryState → Bool
unfolding score bytes_leb
entry_less exit_country a b =
    if not (score a exit_country == score b exit_country)
    then ltb (score a exit_country) (score b exit_country)
    else if a.tunnel && not b.tunnel
    then true
    else if b.tunnel && not a.tunnel
    then false
    else bytes_leb a.id b.id && not (a.id == b.id)

unfoldable pub insert_entry : Bytes → EntryState → List EntryState → List EntryState
unfolding entry_less
insert_entry exit_country e [] = e ∷ []
insert_entry exit_country e (x ∷ xs) =
    let rest = insert_entry exit_country e xs in
    if entry_less exit_country x e then x ∷ rest else e ∷ x ∷ xs

-- sort.SliceStable
unfoldable pub sort_entries : Bytes → List EntryState → List EntryState
unfolding insert_entry
sort_entries exit_country [] = []
sort_entries exit_country (e ∷ es) = insert_entry exit_country e (sort_entries exit_country es)

abbrev swap_first : List EntryState → List EntryState
swap_first (a ∷ b ∷ rest) = b ∷ a ∷ rest
swap_first es = es

-- The entries that are in rotation.
unfoldable pub enabled_entries : ℕ → List EntryState → List EntryState
enabled_entries now = filter (λ e. not (ltb now e.disabled_until))

-- orderedEntriesLocked; `explores` is whether the random number is below the exploration rate.
unfoldable pub ordered_entries : Bool → Bytes → ℕ → Pool → List EntryState
unfolding sort_entries enabled_entries
ordered_entries explores exit_country now p =
    let sorted = sort_entries exit_country (enabled_entries now p.entries) in
    if explores then swap_first sorted else sorted

-- The first entry with the name is changed.
unfoldable pub update_entry : Bytes → (EntryState → EntryState) → List EntryState → List EntryState
update_entry id f [] = []
update_entry id f (e ∷ es) = if e.id == id then f e ∷ es else e ∷ update_entry id f es

-- noteEntryFailure on the entry: the third failure in a row takes it out of rotation.
unfoldable pub fail_entry : ℕ → Error → ℕ → EntryState → EntryState
unfolding back_off
fail_entry base err now e =
    let failed = record e { failures = e.failures + 1; last_error = some err } in
    if ltb (e.failures + 1) 3 then failed else record failed {
      disabled_until = back_off now (minutes 10) (base * 2 ^ min (e.failures + 1 - 3) 5);
      tunnel = false;
    }

-- noteEntryFailure
unfoldable pub note_entry_failure : Bytes → Error → ℕ → Pool → Pool
unfolding update_entry fail_entry
note_entry_failure id err now p = record p {
  entries = update_entry id (fail_entry p.opts.failure_backoff err now) p.entries;
}

-- NoteDialFailure; `at_destination` is whether the error is a refusal of the relay.
unfoldable pub note_dial_failure : Lease → Error → Bool → ℕ → Pool → Pool
unfolding note_entry_failure note_failure
note_dial_failure l err at_destination now p =
    if not (is_empty l.entry) && not at_destination
    then note_entry_failure l.entry err now p
    else note_failure l.slot err now p

abbrev add_slot_traffic : ℕ → ℕ → SlotState → SlotState
add_slot_traffic sent received s = record s {
  bytes_sent = u64 (s.bytes_sent + sent);
  bytes_received = u64 (s.bytes_received + received);
}

abbrev add_entry_traffic : ℕ → ℕ → EntryState → EntryState
add_entry_traffic sent received e = record e {
  bytes_sent = u64 (e.bytes_sent + sent);
  bytes_received = u64 (e.bytes_received + received);
}

-- RecordTraffic; a count that is not positive is given as 0.
unfoldable pub record_traffic : Lease → ℕ → ℕ → Pool → Pool
unfolding update_slots update_entry
record_traffic l sent received p =
    let counted = record (update_slot l.slot (add_slot_traffic sent received) p) {
      stat_sent = u64 (p.stat_sent + sent);
      stat_received = u64 (p.stat_received + received);
    } in
    if sent == 0 && received == 0 then p else if is_empty l.entry then counted else record counted {
      entries = update_entry l.entry (add_entry_traffic sent received) p.entries;
    }
