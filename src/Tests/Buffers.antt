-- ===== src/Tests/Buffers.antt =====
-- The spill buffer at a concrete buffer of two segments.
use gdbx.Base.{
  ◌*◌, ℕ, zero, suc, ◌-◌, ◌/◌, ◌%◌, ◌^◌, ◌≤◌, ◌<◌, ◌≡◌, true, false, [], ◌∷◌, none, some, arith, ok,
  get_or, get_or_past, refl,
}
use native.Mathlib.Decide.{ℕ_discrete}
use gdbx.Spill.Bits.{test_bit}
use gdbx.Spill.Bitmap.{is_allocated}
use gdbx.Spill.Bitmap.Slots.{no_bits}
use gdbx.Spill.Buffer.{
  Buffer, Segment, Slot, no_segment, itoa, itoa_loop, allocate_slot, release_bulk,
}
use gdbx.Spill.Buffer.Invariant.{IsSegment, IsBuffer, is_taken}
use gdbx.Spill.Buffer.Allocate.{Answers, allocate_slot_lem, allocate_slot-Gives}
use gdbx.Spill.Buffer.Current.{Gives}
use gdbx.Spill.Buffer.Release.{ReleasesAll, release_bulk_lem}

abbrev three_slots : ℕ → Segment
three_slots w = record {
  path = 47 ∷ 115 ∷ [];
  bitmap = record { words = w ∷ []; num_slots = 3; free_hint = 0 };
  cap = 3;
  mapped = 3 * 4096;
}

-- The first segment is full, in the second the first slot is taken.
abbrev pub four_taken : Buffer
four_taken = record {
  base_path = 47 ∷ 115 ∷ [];
  page_size = 4096;
  segment_cap = 3;
  segments = three_slots 7 ∷ three_slots 1 ∷ [];
  cur_segment = 1;
  total_alloc = 4;
}

one_word : (w i : ℕ) → w < 2 ^ 64 → get_or (w ∷ []) i 0 < 2 ^ 64
one_word w zero h = h
one_word w (suc i) h = omega arith

unused_bits :
    (w s : ℕ)
    → ((c : ℕ) → test_bit w (suc (suc (suc c))) ≡ false)
    → 3 ≤ s
    → test_bit (get_or (w ∷ []) (s / 64) 0) (s % 64) ≡ false
unused_bits w s h k = elim (ℕ_discrete (s / 64) 0) [
  | yes z ↦ let e : s % 64 ≡ suc (suc (suc (s - 3))) = omega arith in rw (z, e) (h (s - 3))
  | no ne ↦ rw (get_or_past (w ∷ []) (s / 64) 0 (omega arith)) (no_bits (s % 64))
]

three_slots-IsSegment :
    (w : ℕ)
    → w < 2 ^ 64
    → ((c : ℕ) → test_bit w (suc (suc (suc c))) ≡ false)
    → IsSegment 3 4096 (three_slots w)
three_slots-IsSegment w h bits = record {
  bits = record {
    in_words = λ i. one_word w i h;
    covered = omega arith;
    few_words = omega arith;
    few_slots = omega arith;
    hint_ok = omega arith;
    unused = λ s k. unused_bits w s bits k;
  };
  slots_ok = refl;
  cap_ok = refl;
  mapped_ok = refl;
}

both-IsSegment : (i : ℕ) → i < 2 → IsSegment 3 4096 (get_or four_taken.segments i no_segment)
unfolding test_bit
both-IsSegment zero h = three_slots-IsSegment 7 (omega arith) no_bits
both-IsSegment (suc zero) h = three_slots-IsSegment 1 (omega arith) (λ c. no_bits (suc (suc c)))
both-IsSegment (suc (suc i)) h = absurd (omega arith)

first_full : (i s : ℕ) → i < 1 → s < 3 → is_taken four_taken i s ≡ ok true
unfolding is_allocated test_bit
first_full zero zero h k = refl
first_full zero (suc zero) h k = refl
first_full zero (suc (suc zero)) h k = refl
first_full zero (suc (suc (suc s))) h k = absurd (omega arith)
first_full (suc i) s h k = absurd (omega arith)

pub four_taken-IsBuffer : IsBuffer four_taken
four_taken-IsBuffer = record {
  some_slot = omega arith;
  few_slots = omega arith;
  each = both-IsSegment;
  cur_ok = omega arith;
  full_before = first_full;
}

itoa_1024 : itoa 1024 ≡ ok (49 ∷ 48 ∷ 50 ∷ 52 ∷ [])
unfolding itoa itoa_loop
itoa_1024 = refl

abbrev slot_at : ℕ → ℕ → Slot
slot_at i s = record { pgno = 0; segment_idx = i; slot_idx = s }

allocate_slot_lem_example :
    Answers (λ _ _. false) four_taken (allocate_slot (λ _ _. false) four_taken)
allocate_slot_lem_example =
    allocate_slot_lem (λ _ _. false) four_taken four_taken-IsBuffer (omega arith)

release_bulk_lem_example :
    ReleasesAll four_taken
      (none ∷ some (slot_at 0 2) ∷ some (slot_at 7 1) ∷ [])
      (release_bulk four_taken (none ∷ some (slot_at 0 2) ∷ some (slot_at 7 1) ∷ []))
release_bulk_lem_example =
    release_bulk_lem four_taken (none ∷ some (slot_at 0 2) ∷ some (slot_at 7 1) ∷ [])
      four_taken-IsBuffer

allocate_slot-Gives_example : Gives four_taken (allocate_slot (λ _ _. true) four_taken)
allocate_slot-Gives_example =
    allocate_slot-Gives (λ _ _. true) four_taken four_taken-IsBuffer (omega arith) (omega arith)
      (λ path size. refl)
