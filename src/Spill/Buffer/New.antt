-- ===== src/Spill/Buffer/New.antt =====
-- `New` of the spill buffer.
use gdbx.Base.{
  ℕ, ◌*◌, ◌^◌, ◌<◌, ◌≡◌, refl, Bool, Bool-cases, List, [], ◌⊎◌, inl, inr, Option, none, some, ◌==◌,
  false, if◌then◌else◌, ltb, ◌&&◌, Run, ok, arith, ◌∙◌,
}
use gdbx.Spill.Buffer.{Buffer, SpillError, new, add_segment, segment_path, default_initial_cap}
use gdbx.Spill.Buffer.Invariant.{
  is_taken, IsBuffer, no_segment-free, is_taken-grown, grown-IsBuffer, grown,
}

abbrev start_buffer : List ℕ → ℕ → ℕ → Buffer
start_buffer path page_size cap = record {
  base_path = path;
  page_size = page_size;
  segment_cap = cap;
  segments = [];
  cur_segment = 0;
  total_alloc = 0;
}

start_buffer-IsBuffer :
    (path : List ℕ) (page_size cap : ℕ)
    → 0 < cap
    → cap < 2 ^ 16
    → IsBuffer (start_buffer path page_size cap)
start_buffer-IsBuffer path page_size cap some_slot few = record {
  some_slot = some_slot;
  few_slots = few;
  each = λ i h. absurd (omega arith);
  cur_ok = omega arith;
  full_before = λ i s h. absurd (omega arith);
}

-- The buffer is well-formed and all its slots are free, or the calls of the system failed.
abbrev pub Creates : ℕ → Run (Option SpillError × Buffer) → Type 0
Creates slots r =
    ((b : Buffer) × (r ≡ ok (none, b))
      × IsBuffer b
      × (b.segment_cap ≡ slots)
      × ((i s : ℕ) → is_taken b i s ≡ ok false))
    ⊎ ((b : Buffer) × (r ≡ ok (some SpillError.system_error, b)))

-- For an initial capacity below 2^16 `New` does not panic: it fails where a call of the system does,
-- and otherwise the buffer is well-formed, has the capacity asked for per segment, 1024 for 0, and all
-- its slots are free.
pub new_lem :
    (creates : List ℕ → ℕ → Bool) (path : List ℕ) (page_size initial_cap : ℕ)
    → initial_cap < 2 ^ 16
    → Creates
        (if initial_cap == 0 then default_initial_cap else initial_cap)
        (new creates path page_size initial_cap)
unfolding new add_segment segment_path
new_lem creates path page_size initial_cap h =
    let slots = if initial_cap == 0 then default_initial_cap else initial_cap in
    let v : IsBuffer (start_buffer path page_size slots) =
      start_buffer-IsBuffer path page_size slots (ground arith) (ground arith) in
    elim (Bool-cases (ltb 0 (slots * page_size) && creates path (slots * page_size))) [
      | inl t ↦ inl (
        grown (start_buffer path page_size slots) path,
        rw t,
        grown-IsBuffer (start_buffer path page_size slots) path v,
        refl,
        λ i s.
            is_taken-grown (start_buffer path page_size slots) path v.few_slots i s
            ∙ no_segment-free s,
      )
      | inr f ↦ inr (start_buffer path page_size slots, rw f)
    ]
