-- ===== src/Tests/Readers.antt =====
-- Runs on a table of three readers' slots.
use gdbx.Base.{ℕ, ◌+◌, ◌≤◌, ◌<◌, ◌≡◌, refl, Bool, true, [], ◌∷◌, length, get_or, ◌==◌, arith, ◌⊎◌}
use gdbx.Lock.Table.{
  LockFile, no_slot, claimed, is_active, acquire_reader_slot, release_reader_slot, oldest_reader,
  cached_oldest_reader, cleanup_stale_readers, clean_slots, num_active_readers,
}
use gdbx.Lock.Oldest.{oldest_reader_lem}
use gdbx.Lock.Stale.{Cleaned, cleanup_stale_readers_lem}
use gdbx.Lock.Acquire.{Acquires}
use gdbx.Lock.Steps.{releases, clears, stay, step, HasSlots, acquire_after_run}

-- Readers of the processes 1 and 2, at the transactions 7 and 5.
abbrev readers : LockFile
readers = record {
  slots =
      record { txnid = 7; tid = 1; pid = 1 }
      ∷ no_slot
      ∷ record { txnid = 5; tid = 9; pid = 2 }
      ∷ [];
  free_slots = 1 ∷ [];
  cached_oldest = 0;
}

readers-HasSlots : HasSlots 3 readers
readers-HasSlots = record { counted = refl; free_ones = (omega arith, tt) }

-- Process 1 is the caller, and no other exists.
abbrev exists : ℕ → Bool
exists pid = pid == 1

abbrev cleaned_up : LockFile
cleaned_up = (cleanup_stale_readers exists 1 readers).1

oldest_reader_lem_example :
    ((i : ℕ)
      → i < 3
      → is_active (get_or readers.slots i no_slot) ≡ true
      → (oldest_reader readers).0 ≤ (get_or readers.slots i no_slot).txnid)
    × (((oldest_reader readers).0 ≡ claimed)
        ⊎ ((i : ℕ) × (i < 3)
            × (is_active (get_or readers.slots i no_slot) ≡ true)
            × ((get_or readers.slots i no_slot).txnid ≡ (oldest_reader readers).0)))
    × ((oldest_reader readers).1.slots ≡ readers.slots)
    × (cached_oldest_reader (oldest_reader readers).1 ≡ (oldest_reader readers).0)
oldest_reader_lem_example = oldest_reader_lem readers

cleanup_stale_readers_lem_example :
    (num_active_readers cleaned_up + (cleanup_stale_readers exists 1 readers).0
      ≡ num_active_readers readers)
    × ((i : ℕ)
        → Cleaned exists 1 (get_or readers.slots i no_slot) (get_or cleaned_up.slots i no_slot))
cleanup_stale_readers_lem_example = cleanup_stale_readers_lem exists 1 readers

in_table : 2 < length cleaned_up.slots
unfolding cleanup_stale_readers clean_slots
in_table = omega arith

acquire_after_run_example :
    HasSlots 3 (release_reader_slot cleaned_up 2)
    × Acquires
        (release_reader_slot cleaned_up 2)
        1
        4
        (acquire_reader_slot (release_reader_slot cleaned_up 2) 1 4)
acquire_after_run_example =
    acquire_after_run 3 1 4 readers-HasSlots
      (step (clears exists 1) (step (releases 2 in_table) stay))
