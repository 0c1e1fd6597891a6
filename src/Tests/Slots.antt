-- ===== src/Tests/Slots.antt =====
-- The slot bitmap at concrete bitmaps.
use gdbx.Base.{
  ℕ, zero, suc, ◌/◌, ◌%◌, ◌^◌, ◌≤◌, ◌<◌, ◌≡◌, ◌⊎◌, true, false, [], ◌∷◌, none, some, arith, ok,
  panic, get_or, refl,
}
use gdbx.Spill.Bits.{test_bit, set_bit, first_zero}
use gdbx.Spill.Bitmap.{
  search_words, Bitmap, IsBitmap, allocate, free, extend, capacity, is_allocated, new_bitmap,
}
use gdbx.Spill.Bitmap.Slots.{SameOthers, allocate_lem, free_lem, no_bits}
use gdbx.Spill.Bitmap.Grow.{new_bitmap_wraps, extend_lem}

-- 70 slots, with 0 and 1 allocated.
abbrev two_taken : Bitmap
two_taken = record { words = 3 ∷ 0 ∷ []; num_slots = 70; free_hint = 2 }

two_words : (i : ℕ) → get_or (3 ∷ 0 ∷ []) i 0 < 2 ^ 64
two_words zero = omega arith
two_words (suc zero) = omega arith
two_words (suc (suc i)) = omega arith

past : (i : ℕ) → 0 < i → get_or two_taken.words i 0 ≡ 0
past zero h = absurd (omega arith)
past (suc zero) h = refl
past (suc (suc i)) h = refl

two_taken-IsBitmap : IsBitmap two_taken
two_taken-IsBitmap = record {
  in_words = two_words;
  covered = omega arith;
  few_words = omega arith;
  few_slots = omega arith;
  hint_ok = omega arith;
  unused = λ slot h. rw (past (slot / 64) (omega arith)) (no_bits (slot % 64));
}

allocate_lem_example :
    ((allocate two_taken ≡ none) × ((slot : ℕ) → slot < 70 → is_allocated two_taken slot ≡ ok true))
    ⊎ ((slot : ℕ) × (b' : Bitmap) × (allocate two_taken ≡ some (slot, b'))
        × (slot < 70)
        × (is_allocated two_taken slot ≡ ok false)
        × (is_allocated b' slot ≡ ok true)
        × SameOthers two_taken slot b'
        × IsBitmap b')
allocate_lem_example = allocate_lem two_taken two_taken-IsBitmap

free_lem_example :
    (b' : Bitmap) × (free two_taken 1 ≡ ok b')
    × (is_allocated b' 1 ≡ ok false)
    × SameOthers two_taken 1 b'
    × (b'.free_hint ≤ 1)
    × IsBitmap b'
free_lem_example = free_lem two_taken 1 two_taken-IsBitmap (omega arith)

new_bitmap_wraps_example : is_allocated (new_bitmap 0xFFFF_FFFF) 0 ≡ panic
new_bitmap_wraps_example = new_bitmap_wraps 0xFFFF_FFFF (omega arith) (omega arith)

extend_lem_example :
    IsBitmap (extend two_taken 200)
    × (capacity (extend two_taken 200) ≡ 200)
    × ((slot : ℕ) → is_allocated (extend two_taken 200) slot ≡ is_allocated two_taken slot)
unfolding capacity
extend_lem_example = extend_lem two_taken 200 two_taken-IsBitmap (omega arith)

abbrev three_taken : Bitmap
three_taken = record { words = 7 ∷ 0 ∷ []; num_slots = 70; free_hint = 3 }

allocates_two : allocate two_taken ≡ some (2, three_taken)
unfolding allocate search_words set_bit first_zero
allocates_two = refl

one_allocated : is_allocated two_taken 1 ≡ ok true
unfolding is_allocated test_bit
one_allocated = refl
