-- ===== src/Spill/Bitmap/Grow.antt =====
-- `NewBitmap`, `Clear` and `Extend`: the bitmaps without slots taken, and with more of them.
use gdbx.Base.{
  ℕ, zero, suc, ◌+◌, ◌-◌, ◌*◌, ◌/◌, ◌%◌, ◌^◌, ◌≤◌, ◌<◌, ◌≡◌, refl, sym, ap, ◌∙◌, ltb, leb,
  if◌then◌else◌, false, Bool-cases, inl, inr, List, [], ◌∷◌, ◌++◌, length, get_or, replicate,
  length-append, length-replicate, ok, panic, arith, gt→leb, get_or-replicate,
}
use gdbx.Spill.Bits.{test_bit}
use gdbx.Spill.Bitmap.{
  Bitmap, IsBitmap, extend, is_allocated, new_bitmap, clear, capacity, words_for,
}
use gdbx.Spill.Bitmap.Slots.{is_allocated-bit, no_bits}

blank_bit : (n slot : ℕ) → test_bit (get_or (replicate n 0) (slot / 64) 0) (slot % 64) ≡ false
blank_bit n slot = rw (get_or-replicate {A = ℕ} n (slot / 64) 0) (no_bits (slot % 64))

blank-IsBitmap :
    (n slots : ℕ)
    → slots ≤ n * 64
    → n ≤ 2 ^ 26
    → slots < 2 ^ 32
    → IsBitmap (record { words = replicate n 0; num_slots = slots; free_hint = 0 })
blank-IsBitmap n slots covered few small = record {
  in_words = λ j. rw (get_or-replicate {A = ℕ} n j 0) (omega arith);
  covered = rw (length-replicate {A = ℕ} n 0) covered;
  few_words = rw (length-replicate {A = ℕ} n 0) few;
  few_slots = small;
  hint_ok = omega arith;
  unused = λ slot h. blank_bit n slot;
}

-- For a number of slots of at most 2^32 - 64, `NewBitmap` is a well-formed bitmap with that capacity,
-- of which no slot is allocated.
pub new_bitmap_lem :
    (slots : ℕ)
    → slots + 63 < 2 ^ 32
    → IsBitmap (new_bitmap slots)
      × (capacity (new_bitmap slots) ≡ slots)
      × ((slot : ℕ) → is_allocated (new_bitmap slots) slot ≡ ok false)
unfolding new_bitmap capacity
new_bitmap_lem slots h =
    let v : IsBitmap (new_bitmap slots) =
      blank-IsBitmap (words_for slots) slots (unfold words_for in omega (arith, h))
        (unfold words_for in omega (arith, h)) (omega arith) in
    (
      v,
      refl,
      λ slot. is_allocated-bit (new_bitmap slots) v slot ∙ ap ok (blank_bit (words_for slots) slot),
    )

-- From 2^32 - 63 slots on the number of words wraps to 0, and `IsAllocated` of slot 0 panics.
pub new_bitmap_wraps :
    (slots : ℕ) → 2 ^ 32 ≤ slots + 63 → slots < 2 ^ 32 → is_allocated (new_bitmap slots) 0 ≡ panic
unfolding new_bitmap is_allocated
new_bitmap_wraps slots h small =
    let z : words_for slots ≡ 0 = unfold words_for in omega (arith, h, small) in
    rw (gt→leb slots 0 (omega arith), z)

-- `Clear` of a well-formed bitmap keeps the capacity and frees every slot.
pub clear_lem :
    (b : Bitmap)
    → IsBitmap b
    → IsBitmap (clear b)
      × (capacity (clear b) ≡ capacity b)
      × ((slot : ℕ) → is_allocated (clear b) slot ≡ ok false)
unfolding clear capacity
clear_lem b v =
    let w : IsBitmap (clear b) =
      blank-IsBitmap (length b.words) b.num_slots v.covered v.few_words v.few_slots in
    (w, refl, λ slot. is_allocated-bit (clear b) w slot ∙ ap ok (blank_bit (length b.words) slot))

get_or_padded : (ws : List ℕ) (n j : ℕ) → get_or (ws ++ replicate n 0) j 0 ≡ get_or ws j 0
get_or_padded [] n j = get_or-replicate n j 0
get_or_padded (w ∷ ws) n zero = refl
get_or_padded (w ∷ ws) n (suc j) = get_or_padded ws n j

-- The words of a bitmap padded with empty ones, and more slots.
padded-IsBitmap :
    (b : Bitmap) (v : IsBitmap b) (n slots : ℕ)
    → b.num_slots ≤ slots
    → slots ≤ (length b.words + n) * 64
    → length b.words + n ≤ 2 ^ 26
    → slots < 2 ^ 32
    → IsBitmap (record b { words = b.words ++ replicate n 0; num_slots = slots })
padded-IsBitmap b v n slots more covered few small =
    let len : length (b.words ++ replicate n 0) ≡ length b.words + n =
      length-append b.words (replicate n 0) ∙ ap (λ k. length b.words + k) (length-replicate n 0) in
    record {
      in_words = λ j. rw (get_or_padded b.words n j) (v.in_words j);
      covered = rw len covered;
      few_words = rw len few;
      few_slots = small;
      hint_ok = v.hint_ok;
      unused = λ slot h. rw (get_or_padded b.words n (slot / 64)) (v.unused slot (omega arith));
    }

-- With the words it has.
wider-IsBitmap :
    (b : Bitmap) (v : IsBitmap b) (slots : ℕ)
    → b.num_slots ≤ slots
    → slots ≤ length b.words * 64
    → slots < 2 ^ 32
    → IsBitmap (record b { num_slots = slots })
wider-IsBitmap b v slots more covered small = record {
  in_words = v.in_words;
  covered = covered;
  few_words = v.few_words;
  few_slots = small;
  hint_ok = v.hint_ok;
  unused = λ slot h. v.unused slot (omega arith);
}

-- `Extend` of a well-formed bitmap to at most 2^32 - 64 slots leaves a well-formed bitmap with the
-- greater of the two capacities, in which exactly the slots of before are allocated.
pub extend_lem :
    (b : Bitmap) (slots : ℕ)
    → IsBitmap b
    → slots + 63 < 2 ^ 32
    → IsBitmap (extend b slots)
      × (capacity (extend b slots) ≡ (if leb slots (capacity b) then capacity b else slots))
      × ((slot : ℕ) → is_allocated (extend b slots) slot ≡ is_allocated b slot)
unfolding extend capacity
extend_lem b slots v h = elim (Bool-cases (leb slots b.num_slots)) [
  | inl e ↦ rw e (v, refl, λ slot. refl)
  | inr e ↦
      let more : b.num_slots ≤ slots = ground arith in
      let words : slots ≤ words_for slots * 64 = unfold words_for in omega (arith, h) in
      let few : words_for slots ≤ 2 ^ 26 = unfold words_for in omega (arith, h) in
      elim (Bool-cases (ltb (length b.words) (words_for slots))) [
        | inl f ↦
            let lt : length b.words < words_for slots = ground arith in
            let n : ℕ = words_for slots - length b.words in
            let b' : Bitmap = record b { words = b.words ++ replicate n 0; num_slots = slots } in
            let w : IsBitmap b' =
              padded-IsBitmap b v n slots more (omega (arith, words, lt)) (omega (arith, few, lt))
                (omega (arith, h)) in
            rw (e, f)
              (
                w,
                refl,
                λ slot.
                    is_allocated-bit b' w slot
                    ∙ ap (λ x. ok (test_bit x (slot % 64))) (get_or_padded b.words n (slot / 64))
                    ∙ sym (is_allocated-bit b v slot),
              )
        | inr f ↦
            let le : words_for slots ≤ length b.words = ground arith in
            let b' : Bitmap = record b { num_slots = slots } in
            let w : IsBitmap b' =
              wider-IsBitmap b v slots more (omega (arith, words, le)) (omega (arith, h)) in
            rw (e, f)
              (w, refl, λ slot. is_allocated-bit b' w slot ∙ sym (is_allocated-bit b v slot))
      ]
]
