-- ===== src/Spill/Bitmap/Capacity.antt =====
-- `Allocate` and `Free` keep the number of slots of a bitmap.
use gdbx.Base.{
  ℕ, ◌/◌, ◌≡◌, sym, ap, ◌∙◌, ltb, leb, Bool-cases, inl, inr, none, some, length, Run, ok, panic,
}
use gdbx.Spill.Bitmap.{Bitmap, IsBitmap, allocate, free}
use gdbx.Spill.Bitmap.Allocate.{allocate-Taken}
use gdbx.Spill.Bitmap.Counting.{allocate-some}

pub allocate-num_slots :
    (b : Bitmap) (slot : ℕ) (b' : Bitmap)
    → IsBitmap b
    → allocate b ≡ some (slot, b')
    → b'.num_slots ≡ b.num_slots
allocate-num_slots b slot b' v h = elim (allocate-Taken b v (allocate-some b slot b' h)) [
  | inl (e, all) ↦ absurd (let q : some (slot, b') ≡ none = sym h ∙ e in cc)
  | inr (s, b1, e, t) ↦
      let same : b1 ≡ b' =
        ap (λ o. elim o as (λ _. Bitmap) [ none ↦ b | some x ↦ x.1 ]) (sym e ∙ h) in
      ap (λ x. x.num_slots) (sym same ∙ t.result)
]

slots_after : Bitmap → Run Bitmap → ℕ
slots_after b (ok b') = b'.num_slots
slots_after b panic = b.num_slots

pub free-num_slots :
    (b : Bitmap) (slot : ℕ) (b' : Bitmap) → free b slot ≡ ok b' → b'.num_slots ≡ b.num_slots
free-num_slots b slot b' h =
    unfold slots_after in
    sym (ap (slots_after b) h) ∙ elim (Bool-cases (leb b.num_slots slot)) [
      | inl e ↦ unfold free slots_after in rw e
      | inr e ↦ elim (Bool-cases (ltb (slot / 64) (length b.words))) [
        | inl lt ↦ unfold free slots_after in rw (e, lt)
        | inr ge ↦ unfold free slots_after in rw (e, ge)
      ]
    ]
