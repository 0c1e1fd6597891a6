-- ===== src/Lock/Table.antt =====
-- The slots of the readers: lock.go. Each operation is taken as one step; the system calls around the
-- file are left out. Without the lock file the slots are in memory, and `memSlots` is `slots`.
use gdbx.Base.{
  ℕ, ◌+◌, ◌-◌, ◌^◌, ltb, ◌==◌, if◌then◌else◌, ◌&&◌, ◌||◌, Bool, true, false, List, [], ◌∷◌, length,
  set, get_or, Option, none, some, Run, ok, ◌>>=◌, in_range,
}

-- The fields that only the snapshot statistics use are left out.
pub record ReaderSlot : Type 0 where
  pub txnid : ℕ
  pub tid : ℕ
  pub pid : ℕ

-- `free_slots` is the stack of free indices, its top first.
pub record LockFile : Type 0 where
  pub slots : List ReaderSlot
  pub free_slots : List ℕ
  pub cached_oldest : ℕ

-- `^uint64(0)`: a slot that is claimed, before its transaction id is known.
abbrev pub claimed : ℕ
claimed = 2 ^ 64 - 1

abbrev pub no_slot : ReaderSlot
no_slot = record { txnid = 0; tid = 0; pid = 0 }

-- `claimed` from its compare-and-swap on, then the owner.
abbrev pub own : ℕ → ℕ → ReaderSlot → ReaderSlot
own pid tid s = record { txnid = claimed; tid = tid; pid = pid }

-- The scan for a free slot from the i-th on; `before` are the slots already passed.
unfoldable pub scan_slots : ℕ → ℕ → List ReaderSlot → ℕ → Option (ℕ × List ReaderSlot)
scan_slots pid tid [] i = none
scan_slots pid tid (s ∷ rest) i =
    let later = scan_slots pid tid rest (i + 1) in
    if s.txnid == 0
    then some (i, own pid tid s ∷ rest)
    else elim later [ none ↦ none | some (j, slots) ↦ some (j, s ∷ slots) ]

-- The slow path; `none` is the error that all slots are taken.
abbrev pub scanned : LockFile → Option (ℕ × List ReaderSlot) → Option ℕ × LockFile
scanned lf none = (none, lf)
scanned lf (some (i, slots)) = (some i, record lf { slots = slots })

unfoldable pub acquire_by_scan : LockFile → ℕ → ℕ → Option ℕ × LockFile
acquire_by_scan lf pid tid = scanned lf (scan_slots pid tid lf.slots 0)

unfoldable pub acquire_reader_slot : LockFile → ℕ → ℕ → Run (Option ℕ × LockFile)
acquire_reader_slot lf pid tid = elim (lf.free_slots) [
  | [] ↦ ok (acquire_by_scan lf pid tid)
  | idx ∷ others ↦
      let popped = record lf { free_slots = others } in
      in_range (ltb idx (length lf.slots)) >>= λ _.
      let s = get_or lf.slots idx no_slot in
      ok (
        if s.txnid == 0
        then (some idx, record popped { slots = set lf.slots idx (own pid tid s) })
        else acquire_by_scan popped pid tid)
]

-- The slot is given by its index.
unfoldable pub release_reader_slot : LockFile → ℕ → LockFile
release_reader_slot lf idx = record lf {
  slots = set lf.slots idx no_slot;
  free_slots = idx ∷ lf.free_slots;
}

unfoldable pub set_reader_txnid : LockFile → ℕ → ℕ → LockFile
set_reader_txnid lf idx txnid = record lf {
  slots = set lf.slots idx (record (get_or lf.slots idx no_slot) { txnid = txnid });
}

abbrev pub is_active : ReaderSlot → Bool
is_active s = ltb 0 s.txnid && (if s.txnid == claimed then false else true)

-- The loop of `oldestReader`.
unfoldable pub least_txnid : List ReaderSlot → ℕ → ℕ
least_txnid [] oldest = oldest
least_txnid (s ∷ rest) oldest =
    least_txnid rest (if is_active s && ltb s.txnid oldest then s.txnid else oldest)

unfoldable pub oldest_reader : LockFile → ℕ × LockFile
oldest_reader lf =
    let oldest = least_txnid lf.slots claimed in (oldest, record lf { cached_oldest = oldest })

unfoldable pub cached_oldest_reader : LockFile → ℕ
cached_oldest_reader lf = lf.cached_oldest

unfoldable pub count_active : List ReaderSlot → ℕ
count_active [] = 0
count_active (s ∷ rest) = (if is_active s then 1 else 0) + count_active rest

unfoldable pub num_active_readers : LockFile → ℕ
num_active_readers lf = count_active lf.slots

unfoldable pub some_in_use : List ReaderSlot → Bool
some_in_use [] = false
some_in_use (s ∷ rest) = if s.txnid == 0 then some_in_use rest else true

unfoldable pub has_active_readers : LockFile → Bool
has_active_readers lf = some_in_use lf.slots

-- `exists` is `processExists`, which asks the system.
module _ (exists : ℕ → Bool) (my_pid : ℕ) where
  abbrev pub is_stale : ReaderSlot → Bool
  is_stale s =
      is_active s
      && (if s.pid == 0 || s.pid == my_pid then false else if exists s.pid then false else true)

  unfoldable pub clean_slots : List ReaderSlot → List ReaderSlot
  clean_slots [] = []
  clean_slots (s ∷ rest) = (if is_stale s then record s { txnid = 0 } else s) ∷ clean_slots rest

  unfoldable pub count_stale : List ReaderSlot → ℕ
  count_stale [] = 0
  count_stale (s ∷ rest) = (if is_stale s then 1 else 0) + count_stale rest

  unfoldable pub cleanup_stale_readers : LockFile → ℕ × LockFile
  cleanup_stale_readers lf = (count_stale lf.slots, record lf { slots = clean_slots lf.slots })
