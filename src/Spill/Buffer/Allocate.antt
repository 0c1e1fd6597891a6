-- ===== src/Spill/Buffer/Allocate.antt =====
-- `Allocate` of the spill buffer: a page that nobody holds, from a new file only where all are held.
use gdbx.Base.{
  ℕ, zero, suc, ◌+◌, ◌-◌, ◌*◌, ◌^◌, ◌<◌, ◌≡◌, refl, sym, ◌∙◌, Bool, true, false, Bool-cases, List,
  ◌⊎◌, inl, inr, lt→ltb, [], ◌∷◌, length, length-append, get_or_past, Run, ok, none, arith, gt→leb,
  ltb, ◌&&◌,
}
use native.Mathlib.Nat.{mul-pos}
use native.Mathlib.Decide.{ℕ_discrete}
use gdbx.Spill.Buffer.{
  Buffer, SpillError, Allocated, no_segment, allocate_fresh, allocate_from, allocate_slot,
  add_segment, new_segment, default_max_segments,
}
use gdbx.Spill.Buffer.Names.{segment_path-number}
use gdbx.Spill.Buffer.Invariant.{
  is_taken, IsBuffer, no_segment-free, grown, is_taken-grown, grown-IsBuffer,
}
use gdbx.Spill.Buffer.Current.{Gives, Refuses, current}

-- A page is given, or nothing changes.
abbrev pub Answers : (List ℕ → ℕ → Bool) → Buffer → Run (Allocated × Buffer) → Type 0
Answers creates b r = Gives b r ⊎ Refuses creates b r

-- In a new segment the first slot that the bitmap gives is free.
grown-Gives :
    (b : Buffer) (path : List ℕ)
    → IsBuffer b
    → length b.segments < 2 ^ 16
    → b.cur_segment ≡ length b.segments
    → Gives b (allocate_fresh (none, grown b path))
grown-Gives b path v few e =
    let b1 : Buffer = grown b path in
    let w : IsBuffer b1 = grown-IsBuffer b path v in
    let l : length b1.segments ≡ length b.segments + 1 =
      length-append b.segments (new_segment b path ∷ []) in
    let same = is_taken-grown b path v.few_slots in
    elim (current b1 w (omega (arith, l, e)) (omega (arith, l))
      (ok (Allocated.failed SpillError.buffer_full, b1))) [
        | inl (g, exact) ↦ record {
          left = g.left;
          i = g.i;
          s = g.s;
          result = unfold allocate_fresh in g.result;
          was_free = sym (same g.i g.s) ∙ g.was_free;
          now_taken = g.now_taken;
          others = λ j t h. g.others j t h ∙ same j t;
          can_get = g.can_get;
          counted = g.counted;
          same_pages = g.same_pages;
          grew = omega (arith, l, exact);
          still = g.still;
        }
        | inr (_, full) ↦ absurd (
            let free : is_taken b1 b.cur_segment 0 ≡ ok false =
              same b.cur_segment 0
              ∙ rw (get_or_past b.segments b.cur_segment no_segment (omega (arith, e)))
                  (no_segment-free 0) in
            let q : ok false ≡ ok true = sym free ∙ full 0 v.some_slot in cc)
      ]

unchanged-Refuses :
    (creates : List ℕ → ℕ → Bool) (path : List ℕ) (b : Buffer) (error : SpillError)
    → IsBuffer b
    → b.cur_segment ≡ length b.segments
    → (ltb 0 (b.segment_cap * b.page_size) && creates path (b.segment_cap * b.page_size)) ≡ false
    → Refuses creates b (ok (Allocated.failed error, b))
unchanged-Refuses creates path b error v e f = record {
  left = b;
  error = error;
  path = path;
  no_file = f;
  result = refl;
  all_taken = λ i s h k. v.full_before i s (omega (arith, e)) k;
  same = refl;
  counted = refl;
  still = v;
}

module _ (creates : List ℕ → ℕ → Bool) where
  last-Answers :
      (b : Buffer)
      → IsBuffer b
      → length b.segments < 2 ^ 16
      → b.cur_segment ≡ length b.segments
      → Answers creates b (allocate_from creates 0 b)
  unfolding allocate_from add_segment
  last-Answers b v few e =
      let (path, named, _) = segment_path-number b.base_path (length b.segments) (omega arith) in
      let size = b.segment_cap * b.page_size in
      rw (gt→leb default_max_segments (length b.segments) (omega arith), named)
        (elim (Bool-cases (ltb 0 size && creates path size)) [
          | inl t ↦ rw t (inl (grown-Gives b path v few e))
          | inr f ↦ rw f (
              inr (
                unfold allocate_fresh in
                unchanged-Refuses creates path b SpillError.system_error v e f))
        ])

  -- The current segment is full: the next one is current.
  next-IsBuffer :
      (b : Buffer)
      → IsBuffer b
      → b.cur_segment < length b.segments
      → ((s : ℕ) → s < b.segment_cap → is_taken b b.cur_segment s ≡ ok true)
      → IsBuffer (record b { cur_segment = b.cur_segment + 1 })
  next-IsBuffer b v lt full = record {
    some_slot = v.some_slot;
    few_slots = v.few_slots;
    each = v.each;
    cur_ok = omega arith;
    full_before = λ i s h k. elim (ℕ_discrete i b.cur_segment) [
      | yes q ↦ rw q (full s k)
      | no ne ↦ v.full_before i s (omega arith) k
    ];
  }

  from-Answers :
      (rounds : ℕ) (b : Buffer)
      → IsBuffer b
      → length b.segments < 2 ^ 16
      → b.cur_segment + rounds ≡ length b.segments
      → Answers creates b (allocate_from creates rounds b)
  from-Answers zero b v few e = last-Answers b v few (omega arith)
  from-Answers (suc rounds) b v few e =
      let b1 : Buffer = record b { cur_segment = b.cur_segment + 1 } in
      elim (current b v (omega arith) (omega arith) (allocate_from creates rounds b1)) [
        | inl (g, exact) ↦ inl (unfold allocate_from in g)
        | inr (skip, full) ↦
            elim (from-Answers rounds b1 (next-IsBuffer b v (omega arith) full) few (omega arith)) [
              | inl g ↦ inl (record {
                left = g.left;
                i = g.i;
                s = g.s;
                result = unfold allocate_from in skip ∙ g.result;
                was_free = g.was_free;
                now_taken = g.now_taken;
                others = g.others;
                can_get = g.can_get;
                counted = g.counted;
                same_pages = g.same_pages;
                grew = g.grew;
                still = g.still;
              })
              | inr r ↦ inr (record {
                left = r.left;
                error = r.error;
                path = r.path;
                no_file = r.no_file;
                result = unfold allocate_from in skip ∙ r.result;
                all_taken = r.all_taken;
                same = r.same;
                counted = r.counted;
                still = r.still;
              })
            ]
      ]

  -- On a well-formed buffer of fewer than 2^16 segments `Allocate`, whatever the calls of the system
  -- answer, does not panic and leaves a well-formed buffer. It fails only where every slot of every
  -- segment is handed out, and then changes no segment; otherwise the slot it returns was free and is
  -- handed out after it, every other slot is as it was, `Get` of the slot is the page that was
  -- returned, and the counter is one more modulo 2^32.
  pub allocate_slot_lem :
      (b : Buffer)
      → IsBuffer b
      → length b.segments < 2 ^ 16
      → Answers creates b (allocate_slot creates b)
  unfolding allocate_slot
  allocate_slot_lem b v few =
      from-Answers (length b.segments - b.cur_segment) b v few (omega (arith, v.cur_ok))

-- On a well-formed buffer of fewer than 2^16 segments, with pages of some bytes, `Allocate` gives a page
-- if every call of the system succeeds.
pub allocate_slot-Gives :
    (creates : List ℕ → ℕ → Bool) (b : Buffer)
    → IsBuffer b
    → length b.segments < 2 ^ 16
    → 0 < b.page_size
    → ((path : List ℕ) (size : ℕ) → creates path size ≡ true)
    → Gives b (allocate_slot creates b)
allocate_slot-Gives creates b v few some_bytes all = elim (allocate_slot_lem creates b v few) [
  | inl g ↦ g
  | inr r ↦
      let size : ℕ = b.segment_cap * b.page_size in
      let pos : 0 < size = mul-pos v.some_slot some_bytes in
      absurd
        (let q : true ≡ false = sym (rw (lt→ltb 0 size pos, all r.path size)) ∙ r.no_file in cc)
]
