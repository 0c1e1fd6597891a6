-- ===== src/Lock/Oldest.antt =====
-- The oldest reader.
use gdbx.Base.{
  ℕ, zero, suc, ◌≤◌, ◌<◌, ◌≡◌, refl, sym, ◌∙◌, true, Bool-cases, ◌&&◌, if◌then◌else◌, ltb, List, [],
  ◌∷◌, length, get_or, arith, inl, inr, ◌⊎◌, ltb→lt,
}
use gdbx.Lock.Table.{
  ReaderSlot, LockFile, no_slot, claimed, is_active, least_txnid, oldest_reader,
  cached_oldest_reader,
}

-- `oldest` is at most the txnid of each active slot.
abbrev IsBound : List ReaderSlot → ℕ → Type 0
IsBound slots oldest =
    (i : ℕ)
    → i < length slots
    → is_active (get_or slots i no_slot) ≡ true
    → oldest ≤ (get_or slots i no_slot).txnid

-- An active slot has it.
abbrev IsReached : List ReaderSlot → ℕ → Type 0
IsReached slots oldest =
    (i : ℕ) × (i < length slots)
    × (is_active (get_or slots i no_slot) ≡ true)
    × ((get_or slots i no_slot).txnid ≡ oldest)

-- The bound after one slot.
next_oldest : ReaderSlot → ℕ → ℕ
next_oldest s oldest = if is_active s && ltb s.txnid oldest then s.txnid else oldest

next_cases :
    (s : ReaderSlot) (oldest : ℕ)
    → ((next_oldest s oldest ≡ oldest) × (is_active s ≡ true → oldest ≤ s.txnid))
      ⊎ ((next_oldest s oldest ≡ s.txnid) × (is_active s ≡ true) × (s.txnid < oldest))
unfolding next_oldest
next_cases s oldest = elim (Bool-cases (is_active s)) [
  | inr e ↦ inl (rw e, λ x. absurd (cc))
  | inl e ↦ elim (Bool-cases (ltb s.txnid oldest)) [
    | inl l ↦ inr (rw (e, l), e, ltb→lt s.txnid oldest l)
    | inr l ↦ inl (rw (e, l), λ x. ground arith)
  ]
]

least_txnid-cons :
    (s : ReaderSlot) (rest : List ReaderSlot) (oldest : ℕ)
    → least_txnid (s ∷ rest) oldest ≡ least_txnid rest (next_oldest s oldest)
unfolding least_txnid next_oldest
least_txnid-cons s rest oldest = refl

least_txnid_le : (slots : List ReaderSlot) (oldest : ℕ) → least_txnid slots oldest ≤ oldest
unfolding least_txnid
least_txnid_le [] oldest = omega arith
least_txnid_le (s ∷ rest) oldest = rw (least_txnid-cons s rest oldest) (elim (next_cases s oldest) [
  | inl (e, h) ↦ omega (arith, least_txnid_le rest (next_oldest s oldest), e)
  | inr (e, a, l) ↦ omega (arith, least_txnid_le rest (next_oldest s oldest), e, l)
])

least_txnid-IsBound :
    (slots : List ReaderSlot) (oldest : ℕ) → IsBound slots (least_txnid slots oldest)
least_txnid-IsBound [] oldest i h a = absurd (omega arith)
least_txnid-IsBound (s ∷ rest) oldest zero h a =
    rw (least_txnid-cons s rest oldest) (elim (next_cases s oldest) [
      | inl (e, b) ↦ omega (arith, least_txnid_le rest (next_oldest s oldest), e, b a)
      | inr (e, x, l) ↦ omega (arith, least_txnid_le rest (next_oldest s oldest), e)
    ])
least_txnid-IsBound (s ∷ rest) oldest (suc i) h a =
    rw (least_txnid-cons s rest oldest)
      (least_txnid-IsBound rest (next_oldest s oldest) i (omega arith) a)

shift-IsReached :
    (s : ReaderSlot) (rest : List ReaderSlot) (oldest : ℕ)
    → IsReached rest oldest
    → IsReached (s ∷ rest) oldest
shift-IsReached s rest oldest (i, h, a, e) = (suc i, omega (arith, h), a, e)

least_txnid-IsReached :
    (slots : List ReaderSlot) (oldest : ℕ)
    → (least_txnid slots oldest ≡ oldest) ⊎ IsReached slots (least_txnid slots oldest)
unfolding least_txnid
least_txnid-IsReached [] oldest = inl refl
least_txnid-IsReached (s ∷ rest) oldest =
    rw (least_txnid-cons s rest oldest) (elim (least_txnid-IsReached rest (next_oldest s oldest)) [
      | inr found ↦ inr (shift-IsReached s rest (least_txnid rest (next_oldest s oldest)) found)
      | inl same ↦ elim (next_cases s oldest) [
        | inl (e, b) ↦ inl (same ∙ e)
        | inr (e, a, l) ↦ inr (0, omega arith, a, sym (same ∙ e))
      ]
    ])

-- `oldestReader` returns a transaction id that is at most that of each slot whose reader is active, and
-- that is the id of one of them, or the largest 64-bit number; it keeps the result as the cached one
-- and leaves the slots.
pub oldest_reader_lem :
    (lf : LockFile)
    → ((i : ℕ)
        → i < length lf.slots
        → is_active (get_or lf.slots i no_slot) ≡ true
        → (oldest_reader lf).0 ≤ (get_or lf.slots i no_slot).txnid)
      × (((oldest_reader lf).0 ≡ claimed)
          ⊎ ((i : ℕ) × (i < length lf.slots)
              × (is_active (get_or lf.slots i no_slot) ≡ true)
              × ((get_or lf.slots i no_slot).txnid ≡ (oldest_reader lf).0)))
      × ((oldest_reader lf).1.slots ≡ lf.slots)
      × (cached_oldest_reader (oldest_reader lf).1 ≡ (oldest_reader lf).0)
unfolding oldest_reader cached_oldest_reader
oldest_reader_lem lf =
    (least_txnid-IsBound lf.slots claimed, least_txnid-IsReached lf.slots claimed, refl, refl)
