-- ===== src/Lock/Steps.antt =====
-- Any sequence of operations on the table.
use gdbx.Base.{
  ℕ, ◌<◌, ◌≡◌, sym, ap, subst, ◌∙◌, Bool, length, length-set, arith, Option, Run, ok, panic, inl,
  inr,
}
use gdbx.Lock.Table.{
  LockFile, no_slot, acquire_reader_slot, release_reader_slot, set_reader_txnid, oldest_reader,
  cleanup_stale_readers,
}
use gdbx.Lock.Acquire.{AreSlots, Acquires, acquire_reader_slot_lem}
use gdbx.Lock.Stale.{length-clean_slots}

-- One operation: a slot is taken, given back, given its transaction id, the oldest reader is asked for,
-- or dead readers are cleared.
pub data Step : LockFile → LockFile → Type 0 where
  acquires :
      {lf lf' : LockFile} (pid tid : ℕ) (taken : Option ℕ)
      → acquire_reader_slot lf pid tid ≡ ok (taken, lf')
      → Step lf lf'
  releases :
      {lf : LockFile} (idx : ℕ) → idx < length lf.slots → Step lf (release_reader_slot lf idx)
  starts : {lf : LockFile} (idx txnid : ℕ) → Step lf (set_reader_txnid lf idx txnid)
  asks : {lf : LockFile} → Step lf (oldest_reader lf).1
  clears :
      {lf : LockFile} (exists : ℕ → Bool) (my_pid : ℕ)
      → Step lf (cleanup_stale_readers exists my_pid lf).1

pub data Steps : LockFile → LockFile → Type 0 where
  stay : {lf : LockFile} → Steps lf lf
  step : {lf lf' lf'' : LockFile} → Step lf lf' → Steps lf' lf'' → Steps lf lf''

-- The table has `n` slots, and its free list holds indices of them.
pub record HasSlots (n : ℕ) (lf : LockFile) : Type 0 where
  pub counted : length lf.slots ≡ n
  pub free_ones : AreSlots n lf.free_slots

-- The table after a run.
left_by : LockFile → Run (Option ℕ × LockFile) → LockFile
left_by lf panic = lf
left_by lf (ok (taken, lf')) = lf'

acquire-HasSlots :
    {lf : LockFile} (n pid tid : ℕ)
    → HasSlots n lf
    → HasSlots n (left_by lf (acquire_reader_slot lf pid tid))
unfolding left_by
acquire-HasSlots {lf} n pid tid v =
    elim (acquire_reader_slot_lem lf pid tid
      (subst (λ k. AreSlots k lf.free_slots) (sym v.counted) v.free_ones)) [
        | inl (i, after, e, h, zeroed, slots, free) ↦ rw e (record {
          counted = ap length slots ∙ length-set lf.slots i _ ∙ v.counted;
          free_ones = subst (λ k. AreSlots k after.free_slots) v.counted free;
        })
        | inr (after, e, full, slots, free) ↦ rw e (record {
          counted = ap length slots ∙ v.counted;
          free_ones = subst (λ k. AreSlots k after.free_slots) v.counted free;
        })
      ]

Step-HasSlots : {lf lf' : LockFile} (n : ℕ) → HasSlots n lf → Step lf lf' → HasSlots n lf'
unfolding release_reader_slot set_reader_txnid oldest_reader cleanup_stale_readers left_by
Step-HasSlots {lf} {lf'} n v (acquires pid tid taken e) =
    subst (HasSlots n) (ap (left_by lf) e) (acquire-HasSlots n pid tid v)
Step-HasSlots {lf} n v (releases idx h) = record {
  counted = length-set lf.slots idx no_slot ∙ v.counted;
  free_ones = (omega (arith, h, v.counted), v.free_ones);
}
Step-HasSlots {lf} n v (starts idx txnid) = record {
  counted = length-set lf.slots idx _ ∙ v.counted;
  free_ones = v.free_ones;
}
Step-HasSlots n v asks = record { counted = v.counted; free_ones = v.free_ones }
Step-HasSlots {lf} n v (clears exists my_pid) = record {
  counted = length-clean_slots exists my_pid lf.slots ∙ v.counted;
  free_ones = v.free_ones;
}

Steps-HasSlots : {lf lf' : LockFile} (n : ℕ) → HasSlots n lf → Steps lf lf' → HasSlots n lf'
Steps-HasSlots n v stay = v
Steps-HasSlots n v (step first rest) = Steps-HasSlots n (Step-HasSlots n v first) rest

-- After any sequence of operations from a table of n slots whose free list holds indices of them, the
-- table has n slots and such a free list again, and `acquireReaderSlot` ends without a panic: with a
-- slot that was free, or with the error where none is free.
pub acquire_after_run :
    {lf lf' : LockFile} (n pid tid : ℕ)
    → HasSlots n lf
    → Steps lf lf'
    → HasSlots n lf' × Acquires lf' pid tid (acquire_reader_slot lf' pid tid)
acquire_after_run {lf} {lf'} n pid tid v steps =
    let after = Steps-HasSlots n v steps in
    (
      after,
      acquire_reader_slot_lem lf' pid tid
          (subst (λ k. AreSlots k lf'.free_slots) (sym after.counted) after.free_ones),
    )
