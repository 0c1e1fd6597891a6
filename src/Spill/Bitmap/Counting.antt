-- ===== src/Spill/Bitmap/Counting.antt =====
-- `Count` of the slot bitmap, over `Allocate` and `Free`.
use gdbx.Base.{
  ℕ, zero, suc, ◌+◌, ◌*◌, ◌/◌, ◌%◌, ◌^◌, ◌<◌, ◌≡◌, sym, ap, ◌∙◌, ◌==◌, ltb, leb, if◌then◌else◌,
  Bool, true, false, Bool-cases, inl, inr, List, [], ◌∷◌, none, some, length, get_or, set, ok,
  panic, arith, lt→ltb,
}
use gdbx.Spill.Bits.{test_bit, set_bit, clear_bit}
use gdbx.Spill.Bitmap.{
  Bitmap, IsBitmap, bit_at, allocate, free, is_allocated, ones_count, count_words, count,
}
use gdbx.Spill.Bitmap.Allocate.{Taken, allocate-Taken}
use gdbx.Spill.Bitmap.Slots.{is_allocated-bit}

ones_count-set_bit :
    (n w b : ℕ) → b < n → test_bit w b ≡ false → ones_count n (set_bit w b) ≡ suc (ones_count n w)
unfolding ones_count set_bit test_bit
ones_count-set_bit zero w b h e = absurd (omega arith)
ones_count-set_bit (suc n) w zero h e =
    let half : (w / 2 * 2 + 1) / 2 ≡ w / 2 = omega arith in
    let even : w % 2 ≡ 0 = ground arith in rw half (omega arith)
ones_count-set_bit (suc n) w (suc b) h e =
    let half : (w % 2 + 2 * set_bit (w / 2) b) / 2 ≡ set_bit (w / 2) b = omega arith in
    rw half (omega (arith, ones_count-set_bit n (w / 2) b (omega arith) e))

ones_count-clear_bit :
    (n w b : ℕ) → b < n → test_bit w b ≡ true → suc (ones_count n (clear_bit w b)) ≡ ones_count n w
unfolding ones_count clear_bit test_bit
ones_count-clear_bit zero w b h e = absurd (omega arith)
ones_count-clear_bit (suc n) w zero h e =
    let half : w / 2 * 2 / 2 ≡ w / 2 = omega arith in
    let odd : w % 2 ≡ 1 = ground arith in rw half (omega arith)
ones_count-clear_bit (suc n) w (suc b) h e =
    let half : (w % 2 + 2 * clear_bit (w / 2) b) / 2 ≡ clear_bit (w / 2) b = omega arith in
    rw half (omega (arith, ones_count-clear_bit n (w / 2) b (omega arith) e))

count_words-set :
    (ws : List ℕ) (i w : ℕ)
    → i < length ws
    → count_words (set ws i w) + ones_count 64 (get_or ws i 0) ≡ count_words ws + ones_count 64 w
unfolding count_words
count_words-set [] i w h = absurd (omega arith)
count_words-set (x ∷ ws) zero w h = omega arith
count_words-set (x ∷ ws) (suc i) w h = omega (arith, count_words-set ws i w (omega arith))

module _ (b : Bitmap) (v : IsBitmap b) (slot : ℕ) where
  word : ℕ
  word = get_or b.words (slot / 64) 0

  Taken-count : (b' : Bitmap) → Taken b slot b' → count b' ≡ (count b + 1) % 2 ^ 32
  unfolding count word
  Taken-count b' t =
      let lt : slot / 64 < length b.words = omega (arith, v.covered, t.in_range) in
      let one = ones_count-set_bit 64 word (slot % 64) (omega arith) t.was_free in
      rw t.result
        (omega (arith, count_words-set b.words (slot / 64) (set_bit word (slot % 64)) lt, one))

pub allocate-some :
    (b : Bitmap) (slot : ℕ) (b' : Bitmap) → allocate b ≡ some (slot, b') → 0 < length b.words
unfolding allocate
allocate-some b slot b' h = elim (Bool-cases (length b.words == 0)) [
  | inl e ↦ absurd (ground (arith, h))
  | inr e ↦ ground arith
]

-- On a well-formed bitmap a successful `Allocate` raises `Count` by one, modulo 2^32.
pub allocate-count :
    (b : Bitmap) (slot : ℕ) (b' : Bitmap)
    → IsBitmap b
    → allocate b ≡ some (slot, b')
    → count b' ≡ (count b + 1) % 2 ^ 32
allocate-count b slot b' v h = elim (allocate-Taken b v (allocate-some b slot b' h)) [
  | inl (e, all) ↦ absurd (let q : some (slot, b') ≡ none = sym h ∙ e in cc)
  | inr (s, b1, e, t) ↦
      let same : b1 ≡ b' =
        ap (λ o. elim o as (λ _. Bitmap) [ none ↦ b | some x ↦ x.1 ]) (sym e ∙ h) in
      ap count (sym same) ∙ Taken-count b v s b1 t
]

-- On a well-formed bitmap `Free` of an allocated slot lowers `Count` by one, modulo 2^32.
pub free-count :
    (b : Bitmap) (slot : ℕ)
    → IsBitmap b
    → is_allocated b slot ≡ ok true
    → (b' : Bitmap) × (free b slot ≡ ok b') × ((count b' + 1) % 2 ^ 32 ≡ count b)
unfolding free count
free-count b slot v h = elim (Bool-cases (leb b.num_slots slot)) [
  | inl e ↦
      let bit : bit_at b slot ≡ false = v.unused slot (ground arith) in
      absurd (let q : ok (bit_at b slot) ≡ ok true = sym (is_allocated-bit b v slot) ∙ h in cc)
  | inr e ↦
      let lt : slot / 64 < length b.words = ground (arith, v.covered) in
      let bit : bit_at b slot ≡ true =
        ap (λ r. elim r as (λ _. Bool) [ ok x ↦ x | panic ↦ false ])
          (sym (is_allocated-bit b v slot) ∙ h) in
      let w : ℕ = clear_bit (get_or b.words (slot / 64) 0) (slot % 64) in
      let one =
        ones_count-clear_bit 64 (get_or b.words (slot / 64) 0) (slot % 64) (omega arith) bit in
      (
        record b {
          words = set b.words (slot / 64) w;
          free_hint = if ltb slot b.free_hint then slot else b.free_hint;
        },
        rw (e, lt→ltb (slot / 64) (length b.words) lt),
        omega (arith, count_words-set b.words (slot / 64) w lt, one),
      )
]
