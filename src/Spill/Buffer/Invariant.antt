-- ===== src/Spill/Buffer/Invariant.antt =====
-- Well-formed spill buffers, and what is allocated in them.
use gdbx.Base.{
  ℕ, ◌+◌, ◌*◌, ◌%◌, ◌^◌, ◌≤◌, ◌<◌, ◌≡◌, refl, ◌∙◌, Bool, true, false, List, [], ◌∷◌, ◌++◌, length,
  get_or, get_or_append_left, get_or_past, length-append, Run, ok, some, arith, gt→leb, ge→ltb,
}
use native.Mathlib.Decide.{dec_lt, ℕ_discrete}
use native.Mathlib.Nat.{mul-le-mul_right}
use gdbx.Spill.Bitmap.{new_bitmap, is_allocated, capacity, IsBitmap}
use gdbx.Spill.Bitmap.Grow.{new_bitmap_lem}
use gdbx.Spill.Buffer.{Segment, Buffer, no_segment, new_segment, get}

-- A slot of a segment is handed out; past the segments none is.
abbrev pub is_taken : Buffer → ℕ → ℕ → Run Bool
is_taken b i slot = is_allocated (get_or b.segments i no_segment).bitmap slot

pub record IsSegment (cap page_size : ℕ) (seg : Segment) : Type 0 where
  pub bits : IsBitmap seg.bitmap
  pub slots_ok : seg.bitmap.num_slots ≡ cap
  pub cap_ok : seg.cap ≡ cap
  pub mapped_ok : seg.mapped ≡ cap * page_size

-- Each segment has the capacity of the buffer, which the 16 bits of a slot's index hold, and the
-- segments before the current one are full.
pub record IsBuffer (b : Buffer) : Type 0 where
  pub some_slot : 0 < b.segment_cap
  pub few_slots : b.segment_cap < 2 ^ 16
  pub each :
      (i : ℕ)
      → i < length b.segments
      → IsSegment b.segment_cap b.page_size (get_or b.segments i no_segment)
  pub cur_ok : b.cur_segment ≤ length b.segments
  pub full_before :
      (i slot : ℕ) → i < b.cur_segment → slot < b.segment_cap → is_taken b i slot ≡ ok true

pub no_segment-free : (slot : ℕ) → is_allocated no_segment.bitmap slot ≡ ok false
no_segment-free slot = let (v, e, free) = new_bitmap_lem 0 (omega arith) in free slot

pub new_segment-IsSegment :
    (b : Buffer) (path : List ℕ)
    → b.segment_cap < 2 ^ 16
    → IsSegment b.segment_cap b.page_size (new_segment b path)
unfolding new_bitmap capacity
new_segment-IsSegment b path h =
    let (v, e, free) = new_bitmap_lem b.segment_cap (omega arith) in
    record { bits = v; slots_ok = e; cap_ok = refl; mapped_ok = refl }

-- The buffer with one more segment.
abbrev pub grown : Buffer → List ℕ → Buffer
grown b path = record b { segments = b.segments ++ (new_segment b path ∷ []) }

pub get_or_last :
    (segs : List Segment) (seg : Segment)
    → get_or (segs ++ (seg ∷ [])) (length segs) no_segment ≡ seg
get_or_last [] seg = refl
get_or_last (s ∷ segs) seg = get_or_last segs seg

-- A new segment is free.
pub is_taken-grown :
    (b : Buffer) (path : List ℕ)
    → b.segment_cap < 2 ^ 16
    → (i slot : ℕ) → is_taken (grown b path) i slot ≡ is_taken b i slot
is_taken-grown b path h i slot = elim (dec_lt i (length b.segments)) [
  | yes lt ↦ rw (get_or_append_left b.segments (new_segment b path ∷ []) i no_segment lt)
  | no ge ↦
      rw (get_or_past b.segments i no_segment (omega arith), no_segment-free slot)
        (elim (ℕ_discrete i (length b.segments)) [
          | yes e ↦
              let (v, c, free) = new_bitmap_lem b.segment_cap (omega arith) in
              rw (e, get_or_last b.segments (new_segment b path)) (free slot)
          | no ne ↦
              let l = length-append b.segments (new_segment b path ∷ []) in
              rw
                (get_or_past (b.segments ++ (new_segment b path ∷ [])) i no_segment
                  (omega (arith, l)))
                (no_segment-free slot)
        ])
]

pub grown-IsBuffer : (b : Buffer) (path : List ℕ) → IsBuffer b → IsBuffer (grown b path)
grown-IsBuffer b path v =
    let l = length-append b.segments (new_segment b path ∷ []) in
    record {
      some_slot = v.some_slot;
      few_slots = v.few_slots;
      each = λ i h. elim (dec_lt i (length b.segments)) [
        | yes lt ↦
            rw (get_or_append_left b.segments (new_segment b path ∷ []) i no_segment lt)
              (v.each i lt)
        | no ge ↦
            let e : i ≡ length b.segments = omega (arith, l) in
            rw (e, get_or_last b.segments (new_segment b path))
              (new_segment-IsSegment b path v.few_slots)
      ];
      cur_ok = omega (arith, l, v.cur_ok);
      full_before =
          λ i slot h k. is_taken-grown b path v.few_slots i slot ∙ v.full_before i slot h k;
    }

pub page_fits : (slot cap size : ℕ) → slot < cap → slot * size + size ≤ cap * size
page_fits slot cap size h = omega (arith, mul-le-mul_right size h)

-- `Get` of a slot in range is its page.
pub get-page :
    (b : Buffer) (pgno i slot : ℕ)
    → IsBuffer b
    → i < length b.segments
    → slot < b.segment_cap
    → get b (some (record { pgno = pgno; segment_idx = i; slot_idx = slot }))
      ≡ some (record { segment = i; offset = slot * b.page_size; len = b.page_size })
unfolding get
get-page b pgno i slot v h k =
    let seg = get_or b.segments i no_segment in
    let s : IsSegment b.segment_cap b.page_size seg = v.each i h in
    let small : seg.cap % 2 ^ 16 ≡ b.segment_cap = omega (arith, s.cap_ok, v.few_slots) in
    rw (
      gt→leb (length b.segments) i h,
      small,
      gt→leb b.segment_cap slot k,
      s.mapped_ok,
      ge→ltb (b.segment_cap * b.page_size) (slot * b.page_size + b.page_size)
          (page_fits slot b.segment_cap b.page_size k),
    )
