-- ===== src/Spill/Bitmap/Slots.antt =====
-- The bitmap as a set of slots: what each operation does to `IsAllocated`.
use native.Mathlib.Decide.{ℕ_discrete}
use gdbx.Base.{
  ℕ, zero, suc, ◌+◌, ◌/◌, ◌%◌, ◌^◌, ◌≤◌, ◌<◌, ◌≡◌, ◌≢◌, refl, sym, ap, ◌∙◌, ◌==◌, ltb, leb,
  if◌then◌else◌, Bool, true, false, Bool-cases, inl, inr, ◌⊎◌, List, none, some, length, get_or,
  set, length-set, get_or-set_self, get_or-set_ne, ok, arith, lt→ltb, gt→leb, leb→le,
}
use gdbx.Spill.Bits.{
  test_bit, set_bit, clear_bit, test_bit-set_bit, test_bit-clear_bit, set_bit-lt, clear_bit-le,
}
use gdbx.Spill.Bitmap.{Bitmap, IsBitmap, bit_at, allocate, free, is_allocated}
use gdbx.Spill.Bitmap.Allocate.{Taken, allocate-Taken}

-- Beside the bit of `slot`, a written word leaves all bits.
bit_after :
    (words : List ℕ) (slot w : ℕ) (on : Bool)
    → slot / 64 < length words
    → ((c : ℕ)
        → test_bit w c ≡ (if c == slot % 64 then on else test_bit (get_or words (slot / 64) 0) c))
    → (t : ℕ)
    → test_bit (get_or (set words (slot / 64) w) (t / 64) 0) (t % 64)
      ≡ (if t == slot then on else test_bit (get_or words (t / 64) 0) (t % 64))
bit_after words slot w on h bits t = elim (ℕ_discrete (t / 64) (slot / 64)) [
  | yes e ↦ rw (e, get_or-set_self words (slot / 64) w 0 h, bits (t % 64)) (ground arith)
  | no e ↦
      let apart : (t == slot) ≡ false = ground arith in
      rw (get_or-set_ne words (slot / 64) (t / 64) w 0 (λ q. e (sym q)), apart)
]

in_words-set :
    (words : List ℕ) (i w : ℕ)
    → ((j : ℕ) → get_or words j 0 < 2 ^ 64)
    → w < 2 ^ 64
    → i < length words
    → (j : ℕ) → get_or (set words i w) j 0 < 2 ^ 64
in_words-set words i w all h lt j = elim (ℕ_discrete j i) [
  | yes e ↦ rw (e, get_or-set_self words i w 0 lt) h
  | no e ↦ rw (get_or-set_ne words i j w 0 (λ q. e (sym q))) (all j)
]

pub no_bits : (c : ℕ) → test_bit 0 c ≡ false
unfolding test_bit
no_bits zero = refl
no_bits (suc c) = no_bits c

-- Of a well-formed bitmap, `IsAllocated` is the bit of the slot, in range or not.
pub is_allocated-bit :
    (b : Bitmap) → IsBitmap b → (slot : ℕ) → is_allocated b slot ≡ ok (bit_at b slot)
unfolding is_allocated
is_allocated-bit b v slot = elim (Bool-cases (leb b.num_slots slot)) [
  | inl e ↦ rw (e, v.unused slot (leb→le b.num_slots slot e))
  | inr e ↦
      let h : slot < b.num_slots = ground arith in
      rw (e, lt→ltb (slot / 64) (length b.words) (omega (arith, v.covered)))
]

-- The bit of one slot is changed, and the hint.
record Changed (b : Bitmap) (slot : ℕ) (on : Bool) (b' : Bitmap) : Type 0 where
  changed_bits : (t : ℕ) → bit_at b' t ≡ (if t == slot then on else bit_at b t)
  still : IsBitmap b'

changed :
    (b : Bitmap) (v : IsBitmap b) (slot w hint : ℕ) (on : Bool)
    → slot < b.num_slots
    → w < 2 ^ 64
    → hint < 2 ^ 32
    → ((c : ℕ)
        → test_bit w c ≡ (if c == slot % 64 then on else test_bit (get_or b.words (slot / 64) 0) c))
    → Changed b slot on (record b { words = set b.words (slot / 64) w; free_hint = hint })
changed b v slot w hint on h small hint_small bits =
    let lt : slot / 64 < length b.words = omega (arith, v.covered) in
    let same : length (set b.words (slot / 64) w) ≡ length b.words =
      length-set b.words (slot / 64) w in
    let after = bit_after b.words slot w on lt bits in
    record {
      changed_bits = after;
      still = record {
        in_words = in_words-set b.words (slot / 64) w v.in_words small lt;
        covered = omega (arith, same, v.covered);
        few_words = omega (arith, same, v.few_words);
        few_slots = v.few_slots;
        hint_ok = hint_small;
        unused = λ t k.
            let apart : (t == slot) ≡ false = ground arith in after t ∙ rw apart (v.unused t k);
      };
    }

Taken-Changed :
    (b b' : Bitmap) (v : IsBitmap b) (slot : ℕ) → Taken b slot b' → Changed b slot true b'
Taken-Changed b b' v slot t = rw t.result (
    changed b v slot (set_bit (get_or b.words (slot / 64) 0) (slot % 64)) ((slot + 1) % 2 ^ 32) true
      t.in_range
      (set_bit-lt 64 (get_or b.words (slot / 64) 0) (slot % 64) (v.in_words (slot / 64))
        (omega arith))
      (omega arith) (λ c. test_bit-set_bit (get_or b.words (slot / 64) 0) (slot % 64) c))

-- The slots other than one are as they were.
abbrev pub SameOthers : Bitmap → ℕ → Bitmap → Type 0
SameOthers b slot b' = (t : ℕ) → t ≢ slot → is_allocated b' t ≡ is_allocated b t

-- On a well-formed bitmap `Allocate` fails only where each slot in range is allocated; otherwise it
-- returns a slot in range that was free, after which that slot is allocated, each other slot is as it
-- was, and the bitmap is well-formed.
pub allocate_lem :
    (b : Bitmap)
    → IsBitmap b
    → ((allocate b ≡ none) × ((slot : ℕ) → slot < b.num_slots → is_allocated b slot ≡ ok true))
      ⊎ ((slot : ℕ) × (b' : Bitmap) × (allocate b ≡ some (slot, b'))
          × (slot < b.num_slots)
          × (is_allocated b slot ≡ ok false)
          × (is_allocated b' slot ≡ ok true)
          × SameOthers b slot b'
          × IsBitmap b')
allocate_lem b v = elim (ℕ_discrete (length b.words) 0) [
  | yes z ↦ inl (unfold allocate in rw z, λ slot h. absurd (omega (arith, v.covered)))
  | no nz ↦ elim (allocate-Taken b v (omega arith)) [
    | inl (e, all) ↦ inl (e, λ slot h. is_allocated-bit b v slot ∙ ap ok (all slot h))
    | inr (slot, b', e, t) ↦
        let c : Changed b slot true b' = Taken-Changed b b' v slot t in
        let self : (slot == slot) ≡ true = ground arith in
        inr (
          slot,
          b',
          e,
          t.in_range,
          is_allocated-bit b v slot ∙ ap ok t.was_free,
          is_allocated-bit b' c.still slot ∙ ap ok (c.changed_bits slot ∙ rw self),
          λ s ne.
              let apart : (s == slot) ≡ false = ground arith in
              is_allocated-bit b' c.still s
              ∙ ap ok (c.changed_bits s ∙ rw apart)
              ∙ sym (is_allocated-bit b v s),
          c.still,
        )
  ]
]

-- On a well-formed bitmap `Free` of a slot in range makes that slot free, whether it was allocated or
-- not, leaves each other slot as it was and the bitmap well-formed, and its hint is not above the slot.
pub free_lem :
    (b : Bitmap) (slot : ℕ)
    → IsBitmap b
    → slot < b.num_slots
    → (b' : Bitmap) × (free b slot ≡ ok b')
      × (is_allocated b' slot ≡ ok false)
      × SameOthers b slot b'
      × (b'.free_hint ≤ slot)
      × IsBitmap b'
unfolding free
free_lem b slot v h =
    let w = clear_bit (get_or b.words (slot / 64) 0) (slot % 64) in
    let hint = if ltb slot b.free_hint then slot else b.free_hint in
    let c : Changed b slot false
        (record b { words = set b.words (slot / 64) w; free_hint = hint }) =
      changed b v slot w hint false h
        (omega
          (arith, clear_bit-le (get_or b.words (slot / 64) 0) (slot % 64), v.in_words (slot / 64)))
        (ground (arith, v.hint_ok))
        (λ c. test_bit-clear_bit (get_or b.words (slot / 64) 0) (slot % 64) c) in
    let self : (slot == slot) ≡ true = ground arith in
    let b' : Bitmap = record b { words = set b.words (slot / 64) w; free_hint = hint } in
    (
      b',
      rw (
        gt→leb b.num_slots slot h,
        lt→ltb (slot / 64) (length b.words) (omega (arith, v.covered)),
      ),
      is_allocated-bit b' c.still slot ∙ ap ok (c.changed_bits slot ∙ rw self),
      λ s ne.
          let apart : (s == slot) ≡ false = ground arith in
          is_allocated-bit b' c.still s
          ∙ ap ok (c.changed_bits s ∙ rw apart)
          ∙ sym (is_allocated-bit b v s),
      ground arith,
      c.still,
    )
