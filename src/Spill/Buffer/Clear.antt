-- ===== src/Spill/Buffer/Clear.antt =====
-- `Clear` of the spill buffer, and the pages of two slots.
use gdbx.Base.{
  ℕ, zero, suc, ◌+◌, ◌≤◌, ◌<◌, ◌≡◌, ◌≢◌, refl, ap, ◌∙◌, false, List, [], ◌∷◌, map, ◌⊎◌, inl, inr,
  length, get_or, get_or_past, ok, some, arith,
}
use native.Mathlib.Decide.{dec_lt}
use gdbx.Spill.Bitmap.{Bitmap, IsBitmap, free, clear, is_allocated}
use gdbx.Spill.Bitmap.Grow.{clear_lem}
use gdbx.Spill.Buffer.{
  Segment, Buffer, Slot, Region, no_segment, get, clear_segment, clear_all, capacity,
}
use gdbx.Spill.Buffer.Invariant.{is_taken, IsBuffer, no_segment-free, get-page, page_fits}

get_or-map :
    (segs : List Segment) (i : ℕ)
    → i < length segs
    → get_or (map clear_segment segs) i no_segment ≡ clear_segment (get_or segs i no_segment)
get_or-map [] i h = absurd (omega arith)
get_or-map (x ∷ segs) zero h = refl
get_or-map (x ∷ segs) (suc i) h = get_or-map segs i (omega arith)

length-map : (segs : List Segment) → length (map clear_segment segs) ≡ length segs
length-map [] = refl
length-map (x ∷ segs) = ap suc (length-map segs)

-- `Clear` leaves a well-formed buffer well-formed, of the same capacity, and all its slots free.
pub clear_all_lem :
    (b : Buffer)
    → IsBuffer b
    → IsBuffer (clear_all b)
      × (capacity (clear_all b) ≡ capacity b)
      × ((i s : ℕ) → is_taken (clear_all b) i s ≡ ok false)
unfolding clear_all capacity gdbx.Spill.Bitmap.capacity
clear_all_lem b v =
    let len = length-map b.segments in
    (
      record {
        some_slot = v.some_slot;
        few_slots = v.few_slots;
        each = λ i h.
            let lt : i < length b.segments = omega (arith, len) in
            let sv = v.each i lt in
            let (w, cap, _) = clear_lem (get_or b.segments i no_segment).bitmap sv.bits in
            rw (get_or-map b.segments i lt) (record {
              bits = w;
              slots_ok = cap ∙ sv.slots_ok;
              cap_ok = sv.cap_ok;
              mapped_ok = sv.mapped_ok;
            });
        cur_ok = omega arith;
        full_before = λ i s h. absurd (omega arith);
      },
      rw len,
      λ i s. elim (dec_lt i (length b.segments)) [
        | yes lt ↦
            let (_, _, free) =
              clear_lem (get_or b.segments i no_segment).bitmap (v.each i lt).bits in
            rw (get_or-map b.segments i lt) (free s)
        | no ge ↦
            rw (get_or_past (map clear_segment b.segments) i no_segment (omega (arith, len)))
              (no_segment-free s)
      ],
    )

-- The pages of two regions share no byte.
abbrev pub AreApart : Region → Region → Type 0
AreApart r r' =
    (r.segment ≢ r'.segment) ⊎ ((r.offset + r.len ≤ r'.offset) ⊎ (r'.offset + r'.len ≤ r.offset))

-- On a well-formed buffer, two different slots in range have pages, and the pages share no byte.
pub get-AreApart :
    (b : Buffer) (p q : Slot)
    → IsBuffer b
    → p.segment_idx < length b.segments
    → q.segment_idx < length b.segments
    → p.slot_idx < b.segment_cap
    → q.slot_idx < b.segment_cap
    → (p.segment_idx ≢ q.segment_idx) ⊎ (p.slot_idx ≢ q.slot_idx)
    → (r r' : Region) × (get b (some p) ≡ some r) × (get b (some q) ≡ some r') × AreApart r r'
get-AreApart b p q v h k c d ne = (
  _,
  _,
  get-page b p.pgno p.segment_idx p.slot_idx v h c,
  get-page b q.pgno q.segment_idx q.slot_idx v k d,
  elim ne [
    | inl apart ↦ inl apart
    | inr other ↦ inr (elim (dec_lt p.slot_idx q.slot_idx) [
      | yes lt ↦ inl (page_fits p.slot_idx q.slot_idx b.page_size lt)
      | no ge ↦ inr (page_fits q.slot_idx p.slot_idx b.page_size (omega arith))
    ])
  ],
)
