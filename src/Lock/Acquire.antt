-- ===== src/Lock/Acquire.antt =====
-- Taking a slot.
use gdbx.Base.{
  ℕ, zero, suc, ◌+◌, ◌<◌, ◌≡◌, ◌≢◌, refl, ap, ◌∙◌, false, Bool-cases, lt→ltb, ◌==◌, List, [], ◌∷◌,
  length, get_or, set, arith, inl, inr, ◌⊎◌, Option, none, some, Run, ok,
}
use gdbx.Lock.Table.{
  ReaderSlot, LockFile, no_slot, own, scan_slots, scanned, acquire_by_scan, acquire_reader_slot,
}

-- The free indices are those of slots.
abbrev pub AreSlots : ℕ → List ℕ → Type 0
AreSlots n [] = Unit
AreSlots n (i ∷ rest) = (i < n) × AreSlots n rest

-- The scan passes `offset` slots before these.
abbrev Scanned : ℕ → ℕ → List ReaderSlot → ℕ → Type 0
Scanned pid tid slots offset =
    ((i : ℕ) × (i < length slots)
      × ((get_or slots i no_slot).txnid ≡ 0)
      × (scan_slots pid tid slots offset
          ≡ some (offset + i, set slots i (own pid tid (get_or slots i no_slot)))))
    ⊎ (((i : ℕ) → i < length slots → (get_or slots i no_slot).txnid ≢ 0)
        × (scan_slots pid tid slots offset ≡ none))

scan_slots-Scanned :
    (pid tid : ℕ) (slots : List ReaderSlot) (offset : ℕ) → Scanned pid tid slots offset
unfolding scan_slots
scan_slots-Scanned pid tid [] offset = inr (λ i h. absurd (omega arith), refl)
scan_slots-Scanned pid tid (s ∷ rest) offset = elim (Bool-cases (s.txnid == 0)) [
  | inl e ↦
      let start : offset ≡ offset + 0 = omega arith in
      inl (0, omega arith, ground arith, rw e (ap (λ k. some (k, own pid tid s ∷ rest)) start))
  | inr e ↦ elim (scan_slots-Scanned pid tid rest (offset + 1)) [
    | inl (i, h, free, run) ↦
        let next : offset + 1 + i ≡ offset + suc i = omega arith in
        inl (
          suc i,
          omega (arith, h),
          free,
          rw (e, run)
              (ap (λ k. some (k, s ∷ set rest i (own pid tid (get_or rest i no_slot)))) next),
        )
    | inr (full, run) ↦ inr (taken s rest e full, rw (e, run))
  ]
]
  where
    taken :
        (s : ReaderSlot) (rest : List ReaderSlot)
        → (s.txnid == 0) ≡ false
        → ((i : ℕ) → i < length rest → (get_or rest i no_slot).txnid ≢ 0)
        → (i : ℕ) → i < length (s ∷ rest)
        → (get_or (s ∷ rest) i no_slot).txnid ≢ 0
    taken s rest e full zero h = ground arith
    taken s rest e full (suc i) h = full i (omega arith)

-- A slot that was free is claimed, or none is free.
abbrev pub Acquires : LockFile → ℕ → ℕ → Run (Option ℕ × LockFile) → Type 0
Acquires lf pid tid r =
    ((i : ℕ) × (lf' : LockFile) × (r ≡ ok (some i, lf'))
      × (i < length lf.slots)
      × ((get_or lf.slots i no_slot).txnid ≡ 0)
      × (lf'.slots ≡ set lf.slots i (own pid tid (get_or lf.slots i no_slot)))
      × AreSlots (length lf.slots) lf'.free_slots)
    ⊎ ((lf' : LockFile) × (r ≡ ok (none, lf'))
        × ((i : ℕ) → i < length lf.slots → (get_or lf.slots i no_slot).txnid ≢ 0)
        × (lf'.slots ≡ lf.slots)
        × AreSlots (length lf.slots) lf'.free_slots)

by_scan-Acquires :
    (lf : LockFile) (pid tid : ℕ)
    → AreSlots (length lf.slots) lf.free_slots
    → Acquires lf pid tid (ok (acquire_by_scan lf pid tid))
unfolding acquire_by_scan
by_scan-Acquires lf pid tid free = elim (scan_slots-Scanned pid tid lf.slots 0) [
  | inl (i, h, zeroed, run) ↦
      let start : 0 + i ≡ i = omega arith in
      inl (
        i,
        record lf { slots = set lf.slots i (own pid tid (get_or lf.slots i no_slot)) },
        ap (λ r. ok (scanned lf r)) run
            ∙ ap
                (λ k. ok (
                  some k,
                  record lf { slots = set lf.slots i (own pid tid (get_or lf.slots i no_slot)) },
                ))
                start,
        h,
        zeroed,
        refl,
        free,
      )
  | inr (full, run) ↦ inr (lf, ap (λ r. ok (scanned lf r)) run, full, refl, free)
]

from_stack-Acquires :
    (lf : LockFile) (pid tid idx : ℕ) (others : List ℕ)
    → (idx < length lf.slots)
    → AreSlots (length lf.slots) others
    → Acquires lf pid tid (acquire_reader_slot (record lf { free_slots = idx ∷ others }) pid tid)
unfolding acquire_reader_slot
from_stack-Acquires lf pid tid idx others lt free =
    rw (lt→ltb idx (length lf.slots) lt)
      (elim (Bool-cases ((get_or lf.slots idx no_slot).txnid == 0)) [
        | inl e ↦ inl (
          idx,
          record lf {
            free_slots = others;
            slots = set lf.slots idx (own pid tid (get_or lf.slots idx no_slot));
          },
          rw e,
          lt,
          ground arith,
          refl,
          free,
        )
        | inr e ↦ rw e (by_scan-Acquires (record lf { free_slots = others }) pid tid free)
      ])

by_stack-Acquires :
    (lf : LockFile) (pid tid : ℕ) (stack : List ℕ)
    → AreSlots (length lf.slots) stack
    → Acquires lf pid tid (acquire_reader_slot (record lf { free_slots = stack }) pid tid)
unfolding acquire_reader_slot
by_stack-Acquires lf pid tid [] free = by_scan-Acquires (record lf { free_slots = [] }) pid tid free
by_stack-Acquires lf pid tid (idx ∷ others) (lt, free) =
    from_stack-Acquires lf pid tid idx others lt free

-- Where the free list holds indices of slots alone, `acquireReaderSlot` ends without a panic: it returns
-- a slot that was free, which then has the caller's process and thread and the mark of a claim, with no
-- other slot changed; or it returns the error that the slots are full, none is free and none changes.
-- The free list holds indices of slots alone again.
pub acquire_reader_slot_lem :
    (lf : LockFile) (pid tid : ℕ)
    → AreSlots (length lf.slots) lf.free_slots
    → Acquires lf pid tid (acquire_reader_slot lf pid tid)
acquire_reader_slot_lem lf pid tid free = by_stack-Acquires lf pid tid lf.free_slots free
