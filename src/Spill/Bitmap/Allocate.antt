-- ===== src/Spill/Bitmap/Allocate.antt =====
-- What `Allocate` finds and changes.
use native.Mathlib.Nat.{mod-lt, div-add-mod', mul-add-mod_self_right, mod-eq_of_lt, add-mod_left}
use native.Mathlib.Decide.{dec_lt, dec_le, ℕ_discrete}
use gdbx.Base.{
  ℕ, zero, suc, ◌+◌, ◌-◌, ◌*◌, ◌/◌, ◌%◌, ◌^◌, ◌≤◌, ◌<◌, ◌≡◌, refl, ◌∙◌, ◌==◌, leb, if◌then◌else◌,
  true, false, Bool-cases, inl, inr, ◌⊎◌, Option, none, some, length, get_or, set, arith, gt→leb,
  le→leb,
}
use gdbx.Spill.Bits.{
  test_bit, set_bit, first_zero, first_zero-lt, test_bit-first_zero, first_zero-le, test_bit_ones,
}
use gdbx.Spill.Bitmap.{Bitmap, bit_at, IsBitmap, full_word, search_words, allocate}

-- Every slot of word `idx` is allocated.
abbrev Saturated : Bitmap → ℕ → Type 0
Saturated b idx =
    (pos : ℕ) → pos < 64 → idx * 64 + pos < b.num_slots → test_bit (get_or b.words idx 0) pos ≡ true

-- `b'` is `b` with a free slot taken.
pub record Taken (b : Bitmap) (slot : ℕ) (b' : Bitmap) : Type 0 where
  pub in_range : slot < b.num_slots
  pub was_free : bit_at b slot ≡ false
  pub result : b' ≡ record b {
    words = set b.words (slot / 64) (set_bit (get_or b.words (slot / 64) 0) (slot % 64));
    free_hint = (slot + 1) % 2 ^ 32;
  }

-- Counting from any start visits every remainder.
visit :
    (n start idx : ℕ)
    → 0 < n
    → n ≤ 2 ^ 26
    → start ≤ 2 ^ 26
    → idx < n
    → (k : ℕ) × (k < n) × ((start + k) % 2 ^ 32 % n ≡ idx)
visit n start idx pos few h lt =
    let below : start % n < n = mod-lt start pos in
    let whole : start / n * n + start % n ≡ start = div-add-mod' start n in
    elim (dec_le (start % n) idx) [
      | yes k ↦
          let e : (start + (idx - start % n)) % 2 ^ 32 ≡ start / n * n + idx =
            omega (arith, whole, k, few, h, lt) in
          (
            idx - start % n,
            omega arith,
            rw e (mul-add-mod_self_right (start / n) n idx ∙ mod-eq_of_lt lt),
          )
      | no k ↦
          let e : (start + (n + idx - start % n)) % 2 ^ 32 ≡ start / n * n + (n + idx) =
            omega (arith, whole, k, few, h, lt, below) in
          (
            n + idx - start % n,
            omega arith,
            rw e (
                mul-add-mod_self_right (start / n) n (n + idx)
                ∙ add-mod_left n idx
                ∙ mod-eq_of_lt lt),
          )
    ]

module _ (b : Bitmap) (v : IsBitmap b) (some_words : 0 < length b.words) where
  word : ℕ → ℕ
  word idx = get_or b.words idx 0

  -- What one round does at word `idx`.
  pos_at : ℕ → ℕ
  unfolding word
  pos_at idx = first_zero 64 (word idx)

  full-Saturated : (idx : ℕ) → (word idx == full_word) ≡ true → Saturated b idx
  unfolding word
  full-Saturated idx e pos h k =
      let q : get_or b.words idx 0 ≡ full_word = ground arith in rw q (test_bit_ones 64 pos h)

  pos-lt : (idx : ℕ) → (word idx == full_word) ≡ false → pos_at idx < 64
  unfolding pos_at word
  pos-lt idx e = first_zero-lt 64 (get_or b.words idx 0) (v.in_words idx) (λ q. ground arith)

  past-Saturated : (idx : ℕ) → b.num_slots ≤ idx * 64 + pos_at idx → Saturated b idx
  unfolding pos_at word
  past-Saturated idx e pos h k = elim (Bool-cases (test_bit (get_or b.words idx 0) pos)) [
    | inl q ↦ q
    | inr q ↦ absurd (omega (arith, first_zero-le 64 (get_or b.words idx 0) pos h q))
  ]

  taken : ℕ → Bitmap
  unfolding word pos_at
  taken idx = record b {
    words = set b.words idx (set_bit (word idx) (pos_at idx));
    free_hint = (idx * 64 + pos_at idx + 1) % 2 ^ 32;
  }

  taken-Taken :
      (idx : ℕ)
      → pos_at idx < 64
      → idx * 64 + pos_at idx < b.num_slots
      → Taken b (idx * 64 + pos_at idx) (taken idx)
  unfolding taken word
  taken-Taken idx h k =
      let q : (idx * 64 + pos_at idx) / 64 ≡ idx = omega (arith, h) in
      let r : (idx * 64 + pos_at idx) % 64 ≡ pos_at idx = omega (arith, h) in
      record {
        in_range = k;
        was_free =
            rw (q, r) (unfold pos_at word in test_bit-first_zero 64 (get_or b.words idx 0) h);
        result = rw (q, r);
      }

  -- A round at word `idx`, with what the later rounds give.
  round : ℕ → Option (ℕ × Bitmap) → Option (ℕ × Bitmap)
  unfolding taken word pos_at
  round idx rest =
      if word idx == full_word
      then rest
      else if leb b.num_slots ((idx * 64 + pos_at idx) % 2 ^ 32)
      then rest
      else some (
        (idx * 64 + pos_at idx) % 2 ^ 32,
        record b {
          words = set b.words idx (set_bit (word idx) (pos_at idx));
          free_hint = ((idx * 64 + pos_at idx) % 2 ^ 32 + 1) % 2 ^ 32;
        },
      )

  round-cases :
      (idx : ℕ) (rest : Option (ℕ × Bitmap))
      → idx < length b.words
      → ((round idx rest ≡ rest) × Saturated b idx)
        ⊎ ((slot : ℕ) × (b' : Bitmap) × (round idx rest ≡ some (slot, b')) × Taken b slot b')
  unfolding round
  round-cases idx rest h = elim (Bool-cases (word idx == full_word)) [
    | inl e ↦ inl (rw e, full-Saturated idx e)
    | inr e ↦
        let lt : pos_at idx < 64 = pos-lt idx e in
        let small : (idx * 64 + pos_at idx) % 2 ^ 32 ≡ idx * 64 + pos_at idx =
          omega (arith, lt, v.few_words, h) in
        elim (dec_lt (idx * 64 + pos_at idx) b.num_slots) [
          | yes k ↦ inr (
            idx * 64 + pos_at idx,
            taken idx,
            rw (e, small, gt→leb b.num_slots (idx * 64 + pos_at idx) k) (unfold taken in refl),
            taken-Taken idx lt k,
          )
          | no k ↦ inl (
            rw (e, small, le→leb b.num_slots (idx * 64 + pos_at idx) (omega arith)),
            past-Saturated idx (omega arith),
          )
        ]
  ]

  search-round :
      (start i rounds : ℕ)
      → search_words b start i (suc rounds)
        ≡ round ((start + i) % 2 ^ 32 % length b.words) (search_words b start (i + 1) rounds)
  unfolding search_words round word pos_at
  search-round start i rounds = refl

  search_words-Taken :
      (start i rounds : ℕ)
      → ((search_words b start i rounds ≡ none)
          × ((k : ℕ)
              → i ≤ k
              → k < i + rounds
              → Saturated b ((start + k) % 2 ^ 32 % length b.words)))
        ⊎ ((slot : ℕ) × (b' : Bitmap) × (search_words b start i rounds ≡ some (slot, b'))
            × Taken b slot b')
  search_words-Taken start i zero =
      inl (unfold search_words in refl, λ k h h'. absurd (omega arith))
  search_words-Taken start i (suc rounds) =
      let idx = (start + i) % 2 ^ 32 % length b.words in
      elim (round-cases idx (search_words b start (i + 1) rounds)
        (mod-lt ((start + i) % 2 ^ 32) some_words)) [
          | inl (e, full) ↦ elim (search_words-Taken start (i + 1) rounds) [
            | inl (e', all) ↦ inl (
              search-round start i rounds ∙ e ∙ e',
              λ k h h'. elim (ℕ_discrete k i) [
                | yes q ↦ rw q full
                | no q ↦ all k (omega arith) (omega arith)
              ],
            )
            | inr (slot, b', e', t) ↦ inr (slot, b', search-round start i rounds ∙ e ∙ e', t)
          ]
          | inr (slot, b', e, t) ↦ inr (slot, b', search-round start i rounds ∙ e, t)
        ]

  allocate-search : allocate b ≡ search_words b (b.free_hint / 64) 0 (length b.words)
  unfolding allocate
  allocate-search = let e : (length b.words == 0) ≡ false = ground arith in rw e

  pub allocate-Taken :
      ((allocate b ≡ none) × ((slot : ℕ) → slot < b.num_slots → bit_at b slot ≡ true))
      ⊎ ((slot : ℕ) × (b' : Bitmap) × (allocate b ≡ some (slot, b')) × Taken b slot b')
  allocate-Taken = elim (search_words-Taken (b.free_hint / 64) 0 (length b.words)) [
    | inl (e, all) ↦ inl (
      allocate-search ∙ e,
      λ slot h.
          let (k, lt, q) =
            visit (length b.words) (b.free_hint / 64) (slot / 64) some_words v.few_words
              (omega (arith, v.hint_ok)) (omega (arith, v.covered)) in
          let sat : Saturated b (slot / 64) = rw (← q) (all k (omega arith) (omega arith)) in
          sat (slot % 64) (omega arith) (omega arith),
    )
    | inr (slot, b', e, t) ↦ inr (slot, b', allocate-search ∙ e, t)
  ]
