-- ===== src/Lock/Stale.antt =====
-- The readers of dead processes.
use gdbx.Base.{
  ℕ, zero, suc, ◌+◌, ◌≡◌, refl, ap, Bool, true, false, Bool-cases, ◌&&◌, if◌then◌else◌, List, [],
  ◌∷◌, length, get_or, arith, inl, inr, ◌⊎◌, ◌≢◌, ◌<◌,
}
use gdbx.Lock.Table.{
  ReaderSlot, LockFile, no_slot, claimed, is_active, is_stale, clean_slots, count_stale,
  count_active, num_active_readers, cleanup_stale_readers,
}

active_and : (a b : Bool) → (a && b) ≡ true → a ≡ true
active_and true b h = refl
active_and false b h = h

module _ (exists : ℕ → Bool) (my_pid : ℕ) where
  cleaned_active :
      (slots : List ReaderSlot)
      → count_active (clean_slots exists my_pid slots) + count_stale exists my_pid slots
        ≡ count_active slots
  unfolding count_active clean_slots count_stale
  cleaned_active [] = omega arith
  cleaned_active (s ∷ rest) = elim (Bool-cases (is_stale exists my_pid s)) [
    | inl e ↦
        let active : is_active s ≡ true = active_and (is_active s) _ e in
        rw (e, active) (omega (arith, cleaned_active rest))
    | inr e ↦ rw e (omega (arith, cleaned_active rest))
  ]

  cleaned_slot :
      (slots : List ReaderSlot) (i : ℕ)
      → get_or (clean_slots exists my_pid slots) i no_slot ≡ (
          if is_stale exists my_pid (get_or slots i no_slot)
          then record (get_or slots i no_slot) { txnid = 0 }
          else get_or slots i no_slot)
  unfolding clean_slots
  cleaned_slot [] i = refl
  cleaned_slot (s ∷ rest) zero = refl
  cleaned_slot (s ∷ rest) (suc i) = cleaned_slot rest i

  pub length-clean_slots :
      (slots : List ReaderSlot) → length (clean_slots exists my_pid slots) ≡ length slots
  unfolding clean_slots
  length-clean_slots [] = refl
  length-clean_slots (s ∷ rest) = ap suc (length-clean_slots rest)

-- The slot of a reader whose process is gone: its transaction id is known, and its process is neither
-- missing, nor the caller, nor found by the system.
pub record IsDead (exists : ℕ → Bool) (my_pid : ℕ) (s : ReaderSlot) : Type 0 where
  pub begun : 0 < s.txnid
  pub known : s.txnid ≢ claimed
  pub owned : s.pid ≢ 0
  pub other : s.pid ≢ my_pid
  pub gone : exists s.pid ≡ false

abbrev pub IsSpared : (ℕ → Bool) → ℕ → ReaderSlot → Type 0
IsSpared exists my_pid s =
    (s.txnid ≡ 0)
    ⊎ ((s.txnid ≡ claimed) ⊎ ((s.pid ≡ 0) ⊎ ((s.pid ≡ my_pid) ⊎ (exists s.pid ≡ true))))

-- The slot before and after.
abbrev pub Cleaned : (ℕ → Bool) → ℕ → ReaderSlot → ReaderSlot → Type 0
Cleaned exists my_pid s s' =
    (IsDead exists my_pid s × (s' ≡ record s { txnid = 0 })) ⊎ (IsSpared exists my_pid s × (s' ≡ s))

dead_lem :
    (exists : ℕ → Bool) (my_pid : ℕ) (s : ReaderSlot)
    → IsDead exists my_pid s
    → is_stale exists my_pid s ≡ true
dead_lem exists my_pid s h = ground (arith, h.begun, h.known, h.owned, h.other, h.gone)

spared_lem :
    (exists : ℕ → Bool) (my_pid : ℕ) (s : ReaderSlot)
    → IsSpared exists my_pid s
    → is_stale exists my_pid s ≡ false
spared_lem exists my_pid s h = ground arith

IsDead-or_IsSpared :
    (exists : ℕ → Bool) (my_pid : ℕ) (s : ReaderSlot)
    → IsDead exists my_pid s ⊎ IsSpared exists my_pid s
IsDead-or_IsSpared exists my_pid s = elim (Bool-cases (is_stale exists my_pid s)) [
  | inl e ↦ inl (record {
    begun = ground arith;
    known = ground arith;
    owned = ground arith;
    other = ground arith;
    gone = ground arith;
  })
  | inr e ↦ inr (ground arith)
]

stale_cases :
    (exists : ℕ → Bool) (my_pid : ℕ) (s : ReaderSlot)
    → Cleaned exists my_pid s (if is_stale exists my_pid s then record s { txnid = 0 } else s)
stale_cases exists my_pid s = elim (IsDead-or_IsSpared exists my_pid s) [
  | inl h ↦ inl (h, rw (dead_lem exists my_pid s h) refl)
  | inr h ↦ inr (h, rw (spared_lem exists my_pid s h) refl)
]

-- `cleanupStaleReaders` frees a slot, by making its transaction id 0, where that id is not 0 and not
-- the mark of a claimed slot, and the process is not 0, is not the caller, and does not exist. It leaves
-- each other slot as it is. What it returns is the number of active readers by which there are fewer
-- afterwards.
pub cleanup_stale_readers_lem :
    (exists : ℕ → Bool) (my_pid : ℕ) (lf : LockFile)
    → (num_active_readers (cleanup_stale_readers exists my_pid lf).1
          + (cleanup_stale_readers exists my_pid lf).0
        ≡ num_active_readers lf)
      × ((i : ℕ)
          → Cleaned exists my_pid
              (get_or lf.slots i no_slot)
              (get_or (cleanup_stale_readers exists my_pid lf).1.slots i no_slot))
unfolding num_active_readers cleanup_stale_readers
cleanup_stale_readers_lem exists my_pid lf = (
  cleaned_active exists my_pid lf.slots,
  λ i.
      rw (cleaned_slot exists my_pid lf.slots i)
        (stale_cases exists my_pid (get_or lf.slots i no_slot)),
)
