-- ===== src/Spill/Bitmap.antt =====
-- The slot bitmap of spill/bitmap.go. The counters are `uint32`, so their sums wrap at 2^32.
pub mod Allocate
pub mod Slots
pub mod Grow
pub mod Counting
pub mod Capacity
use gdbx.Base.{
  ℕ, zero, suc, ◌+◌, ◌-◌, ◌*◌, ◌/◌, ◌%◌, ◌^◌, ◌≤◌, ◌<◌, ◌≡◌, ◌==◌, ltb, leb, if◌then◌else◌, Bool,
  true, false, List, [], ◌∷◌, Option, none, some, length, get_or, set, replicate, Run, ok, checked,
  arith, ◌++◌,
}
use gdbx.Spill.Bits.{test_bit, set_bit, clear_bit, first_zero}

pub record Bitmap : Type 0 where
  pub words : List ℕ
  pub num_slots : ℕ
  pub free_hint : ℕ

abbrev pub full_word : ℕ
full_word = 2 ^ 64 - 1

unfoldable pub words_for : ℕ → ℕ
words_for slots = (slots + 63) % 2 ^ 32 / 64

unfoldable pub new_bitmap : ℕ → Bitmap
unfolding words_for
new_bitmap slots = record {
  words = replicate (words_for slots) 0;
  num_slots = slots;
  free_hint = 0;
}

-- `rounds` rounds of the search loop from `i` on. The index of a word is a remainder by their number,
-- so it is in range.
unfoldable pub search_words : Bitmap → ℕ → ℕ → ℕ → Option (ℕ × Bitmap)
search_words b start i zero = none
search_words b start i (suc rounds) =
    let rest = search_words b start (i + 1) rounds in
    let word_idx = (start + i) % 2 ^ 32 % length b.words in
    let word = get_or b.words word_idx 0 in
    let bit_pos = first_zero 64 word in
    let slot = (word_idx * 64 + bit_pos) % 2 ^ 32 in
    if word == full_word
    then rest
    else if leb b.num_slots slot
    then rest
    else some (
      slot,
      record b {
        words = set b.words word_idx (set_bit word bit_pos);
        free_hint = (slot + 1) % 2 ^ 32;
      },
    )

-- The slot and the bitmap that is left; `none` is the result (0, false), which changes nothing.
unfoldable pub allocate : Bitmap → Option (ℕ × Bitmap)
allocate b =
    if length b.words == 0 then none else search_words b (b.free_hint / 64) 0 (length b.words)

unfoldable pub free : Bitmap → ℕ → Run Bitmap
free b slot =
    if leb b.num_slots slot
    then ok b
    else checked (ltb (slot / 64) (length b.words)) (record b {
      words = set b.words (slot / 64) (clear_bit (get_or b.words (slot / 64) 0) (slot % 64));
      free_hint = if ltb slot b.free_hint then slot else b.free_hint;
    })

unfoldable pub clear : Bitmap → Bitmap
clear b = record b { words = replicate (length b.words) 0; free_hint = 0 }

unfoldable pub extend : Bitmap → ℕ → Bitmap
unfolding words_for
extend b new_cap =
    if leb new_cap b.num_slots
    then b
    else if ltb (length b.words) (words_for new_cap)
    then record b {
      words = b.words ++ replicate (words_for new_cap - length b.words) 0;
      num_slots = new_cap;
    }
    else record b { num_slots = new_cap }

unfoldable pub is_allocated : Bitmap → ℕ → Run Bool
is_allocated b slot =
    if leb b.num_slots slot
    then ok false
    else checked (ltb (slot / 64) (length b.words))
        (test_bit (get_or b.words (slot / 64) 0) (slot % 64))

-- `bits.OnesCount64` for n = 64.
unfoldable pub ones_count : ℕ → ℕ → ℕ
ones_count zero w = 0
ones_count (suc n) w = w % 2 + ones_count n (w / 2)

unfoldable pub count_words : List ℕ → ℕ
count_words [] = 0
count_words (w ∷ ws) = ones_count 64 w + count_words ws

unfoldable pub count : Bitmap → ℕ
count b = count_words b.words % 2 ^ 32

unfoldable pub capacity : Bitmap → ℕ
capacity b = b.num_slots

-- The bit of a slot; past the words there is none.
abbrev pub bit_at : Bitmap → ℕ → Bool
bit_at b slot = test_bit (get_or b.words (slot / 64) 0) (slot % 64)

-- The words are words, and cover the slots; the slots are counted in 32 bits, and no bit past them is
-- set.
pub record IsBitmap (b : Bitmap) : Type 0 where
  pub in_words : (i : ℕ) → get_or b.words i 0 < 2 ^ 64
  pub covered : b.num_slots ≤ length b.words * 64
  pub few_words : length b.words ≤ 2 ^ 26
  pub few_slots : b.num_slots < 2 ^ 32
  pub hint_ok : b.free_hint < 2 ^ 32
  pub unused : (slot : ℕ) → b.num_slots ≤ slot → bit_at b slot ≡ false
