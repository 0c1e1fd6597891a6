-- ===== src/Spill/Buffer.antt =====
-- The spill buffer of spill/spill.go: segments of mapped files, each with a bitmap of its slots. Opening,
-- sizing and mapping a file are calls of the system and the parameter `creates`, which says for a path
-- and a size whether all of them succeed; the mapping then has that size. A returned page is the region
-- of a segment's mapping that its slice aliases. Counters are `uint32`, the indices of a slot `uint16`.
pub mod Names
pub mod Invariant
pub mod Current
pub mod Allocate
pub mod Release
pub mod Clear
pub mod New
use gdbx.Base.{
  ℕ, zero, suc, ◌+◌, ◌-◌, ◌*◌, ◌/◌, ◌%◌, ◌^◌, ◌==◌, ltb, leb, if◌then◌else◌, Bool, ◌&&◌, List, [],
  ◌∷◌, ◌++◌, map, Option, none, some, length, get_or, set, Run, ok, ◌>>=◌, checked,
}
use gdbx.Spill.Bitmap.{Bitmap, new_bitmap, allocate, free, clear}

pub record Segment : Type 0 where
  pub path : List ℕ
  pub bitmap : Bitmap
  pub cap : ℕ
  -- The length of the mapping.
  pub mapped : ℕ

pub record Buffer : Type 0 where
  pub base_path : List ℕ
  pub page_size : ℕ
  pub segment_cap : ℕ
  pub segments : List Segment
  pub cur_segment : ℕ
  pub total_alloc : ℕ

pub record Slot : Type 0 where
  pub pgno : ℕ
  pub segment_idx : ℕ
  pub slot_idx : ℕ

-- `len` bytes from `offset` on in the mapping of a segment.
pub record Region : Type 0 where
  pub segment : ℕ
  pub offset : ℕ
  pub len : ℕ

pub data SpillError : Type 0 where
  buffer_full : SpillError
  system_error : SpillError

pub data Allocated : Type 0 where
  page : Region → Slot → Allocated
  failed : SpillError → Allocated

-- What stands past the segments; it is never reached by a run.
abbrev pub no_segment : Segment
no_segment = record { path = []; bitmap = new_bitmap 0; cap = 0; mapped = 0 }

abbrev pub default_initial_cap : ℕ
default_initial_cap = 1024

abbrev pub default_max_segments : ℕ
default_max_segments = 2 ^ 31 - 1

-- The digits of `n` before `digits`; `rounds` is the room that is left in the buffer of 20 bytes.
unfoldable pub itoa_loop : ℕ → ℕ → List ℕ → Run (List ℕ)
itoa_loop rounds zero digits = ok digits
itoa_loop zero (suc n) digits = Run.panic
itoa_loop (suc rounds) (suc n) digits = itoa_loop rounds (suc n / 10) ((48 + suc n % 10) ∷ digits)

unfoldable pub itoa : ℕ → Run (List ℕ)
itoa n = if n == 0 then ok (48 ∷ []) else itoa_loop 20 n []

-- The name of the segment `i`: the base path, then from the second on a dot and the number.
unfoldable pub segment_path : List ℕ → ℕ → Run (List ℕ)
segment_path base i = if i == 0 then ok base else do digits ← itoa i; ok (base ++ (46 ∷ digits))

abbrev pub new_segment : Buffer → List ℕ → Segment
new_segment b path = record {
  path = path;
  bitmap = new_bitmap b.segment_cap;
  cap = b.segment_cap;
  mapped = b.segment_cap * b.page_size;
}

-- The error, or `none` and the buffer with the segment.
unfoldable pub add_segment : (List ℕ → ℕ → Bool) → Buffer → Run (Option SpillError × Buffer)
add_segment creates b =
    if leb default_max_segments (length b.segments) then ok (some buffer_full, b) else do
      path ← segment_path b.base_path (length b.segments)
      if ltb 0 (b.segment_cap * b.page_size) && creates path (b.segment_cap * b.page_size)
          then ok (none, record b { segments = b.segments ++ (new_segment b path ∷ []) })
          else ok (some system_error, b)

unfoldable pub new : (List ℕ → ℕ → Bool) → List ℕ → ℕ → ℕ → Run (Option SpillError × Buffer)
new creates path page_size initial_cap = add_segment creates (record {
  base_path = path;
  page_size = page_size;
  segment_cap = if initial_cap == 0 then default_initial_cap else initial_cap;
  segments = [];
  cur_segment = 0;
  total_alloc = 0;
})

-- The slot `slot` of the current segment is handed out, `bm` being the bitmap that is left.
unfoldable pub hand_out : Buffer → ℕ → Bitmap → Run (Allocated × Buffer)
hand_out b slot bm =
    let seg = get_or b.segments b.cur_segment no_segment in
    checked (leb (slot * b.page_size + b.page_size) seg.mapped) (
      page (record { segment = b.cur_segment; offset = slot * b.page_size; len = b.page_size })
          (record { pgno = 0; segment_idx = b.cur_segment % 2 ^ 16; slot_idx = slot % 2 ^ 16 }),
      record b {
        segments = set b.segments b.cur_segment (record seg { bitmap = bm });
        total_alloc = (b.total_alloc + 1) % 2 ^ 32;
      },
    )

-- The slot that a bitmap gives, or else `other`.
abbrev pub given_or :
    Buffer → Option (ℕ × Bitmap) → Run (Allocated × Buffer) → Run (Allocated × Buffer)
given_or b (some (slot, bm)) other = hand_out b slot bm
given_or b none other = other

-- The last part of `Allocate`, in a new segment.
unfoldable pub allocate_fresh : Option SpillError × Buffer → Run (Allocated × Buffer)
allocate_fresh (some e, b) = ok (failed e, b)
allocate_fresh (none, b) =
    given_or b (allocate (get_or b.segments b.cur_segment no_segment).bitmap)
      (ok (failed buffer_full, b))

-- `rounds` rounds of the loop over the segments from the current one on, then a new segment.
unfoldable pub allocate_from : (List ℕ → ℕ → Bool) → ℕ → Buffer → Run (Allocated × Buffer)
allocate_from creates zero b = do added ← add_segment creates b; allocate_fresh added
allocate_from creates (suc rounds) b =
    let rest = allocate_from creates rounds (record b { cur_segment = b.cur_segment + 1 }) in
    given_or b (allocate (get_or b.segments b.cur_segment no_segment).bitmap) rest

unfoldable pub allocate_slot : (List ℕ → ℕ → Bool) → Buffer → Run (Allocated × Buffer)
allocate_slot creates b = allocate_from creates (length b.segments - b.cur_segment) b

-- The page of a slot; `none` is nil, also for a nil slot.
unfoldable pub get : Buffer → Option Slot → Option Region
get b none = none
get b (some slot) =
    let seg = get_or b.segments slot.segment_idx no_segment in
    if leb (length b.segments) slot.segment_idx
    then none
    else if leb (seg.cap % 2 ^ 16) slot.slot_idx
    then none
    else if ltb seg.mapped (slot.slot_idx * b.page_size + b.page_size)
    then none
    else some (record {
      segment = slot.segment_idx;
      offset = slot.slot_idx * b.page_size;
      len = b.page_size;
    })

-- The slot is freed in its segment.
unfoldable pub free_slot : Buffer → Slot → Run Buffer
free_slot b slot = do
  bm ← free (get_or b.segments slot.segment_idx no_segment).bitmap slot.slot_idx
  ok (record b {
    segments =
        set b.segments slot.segment_idx
          (record (get_or b.segments slot.segment_idx no_segment) { bitmap = bm });
    total_alloc = (b.total_alloc + (2 ^ 32 - 1)) % 2 ^ 32;
  })

abbrev pub lower_of : ℕ → ℕ → ℕ
lower_of i cur = if ltb i cur then i else cur

unfoldable pub release : Buffer → Option Slot → Run Buffer
release b none = ok b
release b (some slot) = if leb (length b.segments) slot.segment_idx then ok b else do
  b' ← free_slot b slot
  ok (record b' { cur_segment = lower_of slot.segment_idx b'.cur_segment })

-- The loop of `ReleaseBulk`, with the lowest segment so far.
unfoldable pub release_each : Buffer → ℕ → List (Option Slot) → Run Buffer
release_each b min_seg [] = ok (record b { cur_segment = min_seg })
release_each b min_seg (none ∷ slots) = release_each b min_seg slots
release_each b min_seg (some slot ∷ slots) =
    if leb (length b.segments) slot.segment_idx
    then release_each b min_seg slots
    else do b' ← free_slot b slot; release_each b' (lower_of slot.segment_idx min_seg) slots

unfoldable pub release_bulk : Buffer → List (Option Slot) → Run Buffer
release_bulk b [] = ok b
release_bulk b (slot ∷ slots) = release_each b b.cur_segment (slot ∷ slots)

abbrev pub clear_segment : Segment → Segment
clear_segment seg = record seg { bitmap = clear seg.bitmap }

unfoldable pub clear_all : Buffer → Buffer
clear_all b = record b { segments = map clear_segment b.segments; cur_segment = 0; total_alloc = 0 }

unfoldable pub capacity : Buffer → ℕ
capacity b = length b.segments % 2 ^ 32 * b.segment_cap % 2 ^ 32

unfoldable pub allocated_count : Buffer → ℕ
allocated_count b = b.total_alloc

-- `Close`, whose calls of the system are left out, and with them its error.
unfoldable pub close : Buffer → Buffer
close b = record b { segments = [] }
