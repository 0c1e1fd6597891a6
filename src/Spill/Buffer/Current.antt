-- ===== src/Spill/Buffer/Current.antt =====
-- `Allocate` in the current segment of the spill buffer.
use gdbx.Base.{
  ℕ, ◌+◌, ◌*◌, ◌%◌, ◌^◌, ◌≤◌, ◌<◌, ◌≡◌, ◌≢◌, refl, sym, ◌∙◌, Bool, true, false, List, ◌⊎◌, inl, inr,
  length, get_or, set, length-set, get_or-set_self, get_or-set_ne, Run, ok, some, arith, le→leb,
  ltb, ◌&&◌,
}
use native.Mathlib.Decide.{ℕ_discrete}
use gdbx.Spill.Bitmap.{Bitmap, IsBitmap, allocate, is_allocated}
use gdbx.Spill.Bitmap.Slots.{SameOthers, allocate_lem}
use gdbx.Spill.Bitmap.Capacity.{allocate-num_slots}
use gdbx.Spill.Buffer.{Segment, Buffer, SpillError, Allocated, no_segment, hand_out, given_or, get}
use gdbx.Spill.Buffer.Invariant.{is_taken, IsSegment, IsBuffer, get-page, page_fits}

-- A free slot is taken, its page is returned and nothing else changes.
pub record Gives (b : Buffer) (r : Run (Allocated × Buffer)) : Type 0 where
  pub left : Buffer
  pub i : ℕ
  pub s : ℕ
  pub result :
      r
      ≡ ok (
        Allocated.page
            (record { segment = i; offset = s * b.page_size; len = b.page_size })
            (record { pgno = 0; segment_idx = i; slot_idx = s }),
        left,
      )
  pub was_free : is_taken b i s ≡ ok false
  pub now_taken : is_taken left i s ≡ ok true
  pub others : (j t : ℕ) → (j ≢ i) ⊎ (t ≢ s) → is_taken left j t ≡ is_taken b j t
  pub can_get :
      get left (some (record { pgno = 0; segment_idx = i; slot_idx = s }))
      ≡ some (record { segment = i; offset = s * b.page_size; len = b.page_size })
  pub counted : left.total_alloc ≡ (b.total_alloc + 1) % 2 ^ 32
  pub same_pages : left.page_size ≡ b.page_size
  pub grew : length left.segments ≤ length b.segments + 1
  pub still : IsBuffer left

-- Every slot is taken, and stays so; the file of a new segment could not be had.
pub record Refuses (creates : List ℕ → ℕ → Bool) (b : Buffer) (r : Run (Allocated × Buffer))
    : Type 0 where
  pub left : Buffer
  pub error : SpillError
  pub result : r ≡ ok (Allocated.failed error, left)
  pub path : List ℕ
  pub no_file :
      (ltb 0 (b.segment_cap * b.page_size) && creates path (b.segment_cap * b.page_size)) ≡ false
  pub all_taken : (i s : ℕ) → i < length b.segments → s < b.segment_cap → is_taken b i s ≡ ok true
  pub same : left.segments ≡ b.segments
  pub counted : left.total_alloc ≡ b.total_alloc
  pub still : IsBuffer left

module _ (b : Buffer) (v : IsBuffer b) (lt : b.cur_segment < length b.segments)
    (few : length b.segments ≤ 2 ^ 16) where
  abbrev cur_seg : Segment
  cur_seg = get_or b.segments b.cur_segment no_segment

  cur-IsSegment : IsSegment b.segment_cap b.page_size cur_seg
  cur-IsSegment = v.each b.cur_segment lt

  -- The buffer with another bitmap in the current segment.
  abbrev put : Bitmap → Buffer
  put bm = record b {
    segments = set b.segments b.cur_segment (record cur_seg { bitmap = bm });
    total_alloc = (b.total_alloc + 1) % 2 ^ 32;
  }

  put_self :
      (bm : Bitmap)
      → get_or (put bm).segments b.cur_segment no_segment ≡ record cur_seg { bitmap = bm }
  put_self bm =
      get_or-set_self b.segments b.cur_segment (record cur_seg { bitmap = bm }) no_segment lt

  put_other :
      (bm : Bitmap) (j : ℕ)
      → j ≢ b.cur_segment
      → get_or (put bm).segments j no_segment ≡ get_or b.segments j no_segment
  put_other bm j ne =
      get_or-set_ne b.segments b.cur_segment j (record cur_seg { bitmap = bm }) no_segment
        (λ e. ne (sym e))

  module _ (slot : ℕ) (bm : Bitmap) (e : allocate cur_seg.bitmap ≡ some (slot, bm))
      (in_range : slot < cur_seg.bitmap.num_slots) (taken : is_allocated bm slot ≡ ok true)
      (others : SameOthers cur_seg.bitmap slot bm) (w : IsBitmap bm) where
    put-IsSegment : IsSegment b.segment_cap b.page_size (record cur_seg { bitmap = bm })
    unfolding cur-IsSegment
    put-IsSegment = record {
      bits = w;
      slots_ok =
          allocate-num_slots cur_seg.bitmap slot bm cur-IsSegment.bits e ∙ cur-IsSegment.slots_ok;
      cap_ok = cur-IsSegment.cap_ok;
      mapped_ok = cur-IsSegment.mapped_ok;
    }

    put-IsBuffer : IsBuffer (put bm)
    put-IsBuffer = record {
      some_slot = v.some_slot;
      few_slots = v.few_slots;
      each = λ j h. elim (ℕ_discrete j b.cur_segment) [
        | yes q ↦ rw (q, put_self bm) put-IsSegment
        | no ne ↦ rw (put_other bm j ne) (
            v.each j
              (rw (← length-set b.segments b.cur_segment (record cur_seg { bitmap = bm })) h))
      ];
      cur_ok = rw (length-set b.segments b.cur_segment (record cur_seg { bitmap = bm })) v.cur_ok;
      full_before =
          λ j s h k. rw (put_other bm j (λ q. absurd (omega arith))) (v.full_before j s h k);
    }

    hand_out-Gives :
        is_taken b b.cur_segment slot ≡ ok false
        → (g : Gives b (hand_out b slot bm)) × (length g.left.segments ≡ length b.segments)
    hand_out-Gives free =
        let small : slot < b.segment_cap = omega (arith, cur-IsSegment.slots_ok) in
        let idx : b.cur_segment % 2 ^ 16 ≡ b.cur_segment = omega arith in
        let slot_small : slot % 2 ^ 16 ≡ slot = omega (arith, v.few_slots) in
        let room : slot * b.page_size + b.page_size ≤ cur_seg.mapped =
          rw cur-IsSegment.mapped_ok (page_fits slot b.segment_cap b.page_size small) in
        (
          record {
            left = put bm;
            i = b.cur_segment;
            s = slot;
            result =
                unfold hand_out in
                rw (le→leb (slot * b.page_size + b.page_size) cur_seg.mapped room, idx, slot_small);
            was_free = free;
            now_taken = rw (put_self bm) taken;
            others = λ j t h. elim (ℕ_discrete j b.cur_segment) [
              | yes q ↦
                  rw (q, put_self bm) (others t (elim h [ inl ne ↦ absurd (ne q) | inr ne ↦ ne ]))
              | no ne ↦ rw (put_other bm j ne)
            ];
            can_get =
                get-page (put bm) 0 b.cur_segment slot put-IsBuffer
                  (rw (length-set b.segments b.cur_segment (record cur_seg { bitmap = bm })) lt)
                  small;
            counted = refl;
            same_pages = refl;
            grew =
                omega (arith, length-set b.segments b.cur_segment (record cur_seg { bitmap = bm }));
            still = put-IsBuffer;
          },
          length-set b.segments b.cur_segment (record cur_seg { bitmap = bm }),
        )

  -- The current segment gives a slot, or is full.
  pub current :
      (other : Run (Allocated × Buffer))
      → ((g : Gives b (given_or b (allocate cur_seg.bitmap) other)) × (length g.left.segments
            ≡ length b.segments))
        ⊎ ((given_or b (allocate cur_seg.bitmap) other ≡ other)
            × ((s : ℕ) → s < b.segment_cap → is_taken b b.cur_segment s ≡ ok true))
  current other = elim (allocate_lem cur_seg.bitmap cur-IsSegment.bits) [
    | inl (e, all) ↦ inr (rw e, λ s h. all s (omega (arith, cur-IsSegment.slots_ok)))
    | inr (slot, bm, e, range, free, taken, others, w) ↦
        inl (rw e (hand_out-Gives slot bm e range taken others w free))
  ]
