-- ===== src/Spill/Buffer/Release.antt =====
-- `Release` and `ReleaseBulk` of the spill buffer.
use gdbx.Base.{
  ℕ, ◌+◌, ◌-◌, ◌%◌, ◌^◌, ◌≤◌, ◌<◌, ◌≡◌, ◌≢◌, refl, sym, ap, ◌∙◌, Bool, true, false, ◌&&◌, ◌||◌,
  ◌==◌, if◌then◌else◌, Bool-cases, List, [], ◌∷◌, inl, inr, length, get_or, set, length-set,
  get_or-set_self, get_or-set_ne, get_or_past, Run, ok, none, some, Option, arith, leb, leb→le,
}
use native.Mathlib.Decide.{ℕ_discrete}
use gdbx.Spill.Bitmap.{Bitmap, IsBitmap, free, is_allocated}
use gdbx.Spill.Bitmap.Slots.{SameOthers, free_lem}
use gdbx.Spill.Bitmap.Capacity.{free-num_slots}
use gdbx.Spill.Buffer.{
  Segment, Buffer, Slot, no_segment, free_slot, lower_of, release, release_each, release_bulk,
}
use gdbx.Spill.Buffer.Invariant.{is_taken, IsSegment, IsBuffer, no_segment-free}

-- `Free` of any slot, in range or not.
free_any :
    (b : Bitmap) (slot : ℕ)
    → IsBitmap b
    → (b' : Bitmap) × (free b slot ≡ ok b')
      × (is_allocated b' slot ≡ ok false)
      × SameOthers b slot b'
      × IsBitmap b'
free_any b slot v = elim (Bool-cases (leb b.num_slots slot)) [
  | inl e ↦ (b, unfold free in rw e, unfold is_allocated in rw e, λ t ne. refl, v)
  | inr e ↦
      let (b', run, freed, others, hint, w) = free_lem b slot v (ground arith) in
      (b', run, freed, others, w)
]

abbrev freed : Buffer → Slot → Bitmap → Buffer
freed b slot bm = record b {
  segments =
      set b.segments slot.segment_idx
        (record (get_or b.segments slot.segment_idx no_segment) { bitmap = bm });
  total_alloc = (b.total_alloc + (2 ^ 32 - 1)) % 2 ^ 32;
}

abbrev is_slot : Slot → ℕ → ℕ → Bool
is_slot slot i s = slot.segment_idx == i && slot.slot_idx == s

-- The slot is freed in `b`, with the segments before `m` full before it.
record Frees (b : Buffer) (m : ℕ) (slot : Slot) : Type 0 where
  bm : Bitmap
  result : free_slot b slot ≡ ok (freed b slot bm)
  taken_after :
      (i s : ℕ)
      → is_taken (freed b slot bm) i s ≡ (if is_slot slot i s then ok false else is_taken b i s)
  still : IsBuffer (record (freed b slot bm) { cur_segment = lower_of slot.segment_idx m })

free_slot-Frees :
    (b : Buffer) (m : ℕ) (slot : Slot)
    → IsBuffer (record b { cur_segment = m })
    → slot.segment_idx < length b.segments
    → Frees b m slot
free_slot-Frees b m slot v lt =
    let k : ℕ = slot.segment_idx in
    let seg : Segment = get_or b.segments k no_segment in
    let sv : IsSegment b.segment_cap b.page_size seg = v.each k lt in
    let (bm, run, free_now, others, w) = free_any seg.bitmap slot.slot_idx sv.bits in
    let b' : Buffer = freed b slot bm in
    let len : length b'.segments ≡ length b.segments =
      length-set b.segments k (record seg { bitmap = bm }) in
    let self : get_or b'.segments k no_segment ≡ record seg { bitmap = bm } =
      get_or-set_self b.segments k (record seg { bitmap = bm }) no_segment lt in
    let other : (j : ℕ) → j ≢ k → get_or b'.segments j no_segment ≡ get_or b.segments j no_segment =
      λ j ne.
        get_or-set_ne b.segments k j (record seg { bitmap = bm }) no_segment (λ q. ne (sym q)) in
    let after : (i s : ℕ)
        → is_taken b' i s ≡ (if is_slot slot i s then ok false else is_taken b i s) =
      λ i s. elim (ℕ_discrete k i) [
        | yes q ↦
            rw (← q, self)
              (elim (ℕ_discrete slot.slot_idx s) [
                | yes p ↦
                    ap (λ x. is_allocated bm x) (sym p)
                    ∙ free_now
                    ∙ sym (is_slot_self slot s p (is_allocated seg.bitmap s))
                | no np ↦
                    others s (λ p. np (sym p))
                    ∙ sym (is_slot_other slot k s (λ _ p. np p) (is_allocated seg.bitmap s))
              ])
        | no ne ↦
            rw (other i (λ q. ne (sym q)))
              (sym (is_slot_other slot i s (λ q _. ne q) (is_taken b i s)))
      ] in
    record {
      bm = bm;
      result = unfold free_slot in rw run;
      taken_after = after;
      still = record {
        some_slot = v.some_slot;
        few_slots = v.few_slots;
        each = λ j h. elim (ℕ_discrete j k) [
          | yes q ↦
              rw (q, self)
                (record {
                  bits = w;
                  slots_ok = free-num_slots seg.bitmap slot.slot_idx bm run ∙ sv.slots_ok;
                  cap_ok = sv.cap_ok;
                  mapped_ok = sv.mapped_ok;
                })
          | no ne ↦ rw (other j ne) (v.each j (omega (arith, len)))
        ];
        cur_ok = lowered slot.segment_idx m (length b'.segments) (omega (arith, len, v.cur_ok));
        full_before = λ j s h c.
            rw (other j (λ q. below j slot.segment_idx m h q))
              (v.full_before j s (below_m j slot.segment_idx m h) c);
      };
    }
  where
    is_slot_self :
        (slot : Slot) (s : ℕ)
        → slot.slot_idx ≡ s
        → (r : Run Bool) → (if is_slot slot slot.segment_idx s then ok false else r) ≡ ok false
    is_slot_self slot s p r = rw (← p) (ground arith)

    is_slot_other :
        (slot : Slot) (i s : ℕ)
        → (slot.segment_idx ≡ i → slot.slot_idx ≢ s)
        → (r : Run Bool) → (if is_slot slot i s then ok false else r) ≡ r
    is_slot_other slot i s h r = elim (ℕ_discrete slot.segment_idx i) [
      | yes q ↦ let apart : slot.slot_idx ≢ s = h q in ground arith
      | no ne ↦ ground arith
    ]

    lowered : (i m n : ℕ) → m ≤ n → lower_of i m ≤ n
    lowered i m n h = ground arith

    below : (j i m : ℕ) → j < lower_of i m → j ≢ i
    below j i m h = ground arith

    below_m : (j i m : ℕ) → j < lower_of i m → j < m
    below_m j i m h = ground arith

-- The slot is one of those.
abbrev pub among : List (Option Slot) → ℕ → ℕ → Bool
among [] i s = false
among (none ∷ slots) i s = among slots i s
among (some slot ∷ slots) i s = (slot.segment_idx == i && slot.slot_idx == s) || among slots i s

-- A run leaves a well-formed buffer in which the slots of the list are free and the others as before.
abbrev pub ReleasesAll : Buffer → List (Option Slot) → Run Buffer → Type 0
ReleasesAll b slots r =
    (b' : Buffer) × (r ≡ ok b')
    × IsBuffer b'
    × ((i s : ℕ) → is_taken b' i s ≡ (if among slots i s then ok false else is_taken b i s))

-- Past the segments no slot is taken.
among_past :
    (b : Buffer) (slot : Slot) (i s : ℕ)
    → length b.segments ≤ slot.segment_idx
    → (if is_slot slot i s then ok false else is_taken b i s) ≡ is_taken b i s
among_past b slot i s h = elim (Bool-cases (is_slot slot i s)) [
  | inl e ↦
      let q : slot.segment_idx ≡ i = ground arith in
      rw (e, get_or_past b.segments i no_segment (omega arith), no_segment-free s)
  | inr e ↦ rw e
]

if_or :
    {A : Type 0} (p q : Bool) (x y : A)
    → (if q then x else (if p then x else y)) ≡ (if p || q then x else y)
if_or true true x y = refl
if_or true false x y = refl
if_or false q x y = refl

release_each-ReleasesAll :
    (b : Buffer) (m : ℕ) (slots : List (Option Slot))
    → IsBuffer (record b { cur_segment = m })
    → ReleasesAll b slots (release_each b m slots)
unfolding release_each
release_each-ReleasesAll b m [] v = (record b { cur_segment = m }, refl, v, λ i s. refl)
release_each-ReleasesAll b m (none ∷ slots) v = release_each-ReleasesAll b m slots v
release_each-ReleasesAll b m (some slot ∷ slots) v =
    elim (Bool-cases (leb (length b.segments) slot.segment_idx)) [
      | inl e ↦
          let (b', run, w, after) = release_each-ReleasesAll b m slots v in
          let past = leb→le (length b.segments) slot.segment_idx e in
          (
            b',
            rw e run,
            w,
            λ i s.
                after i s
                ∙ ap (λ r. if among slots i s then ok false else r)
                    (sym (among_past b slot i s past))
                ∙ if_or (is_slot slot i s) (among slots i s) (ok false) (is_taken b i s),
          )
      | inr e ↦
          let f : Frees b m slot = free_slot-Frees b m slot v (ground arith) in
          let (b', run, w, after) =
            release_each-ReleasesAll (freed b slot f.bm) (lower_of slot.segment_idx m) slots
              f.still in
          (
            b',
            rw (e, f.result) run,
            w,
            λ i s.
                after i s
                ∙ ap (λ r. if among slots i s then ok false else r) (f.taken_after i s)
                ∙ if_or (is_slot slot i s) (among slots i s) (ok false) (is_taken b i s),
          )
    ]

-- On a well-formed buffer `ReleaseBulk` does not panic, leaves a well-formed buffer and frees exactly
-- the slots of the list: the others, of whatever segment, are as they were. Slots that are nil, past
-- the segments or in the list twice do no harm to that.
pub release_bulk_lem :
    (b : Buffer) (slots : List (Option Slot))
    → IsBuffer b
    → ReleasesAll b slots (release_bulk b slots)
unfolding release_bulk
release_bulk_lem b [] v = (b, refl, v, λ i s. refl)
release_bulk_lem b (slot ∷ slots) v = release_each-ReleasesAll b b.cur_segment (slot ∷ slots) v

-- On a well-formed buffer `Release` of a slot is `ReleaseBulk` of that slot alone.
pub release-release_bulk :
    (b : Buffer) (slot : Option Slot) → IsBuffer b → release b slot ≡ release_bulk b (slot ∷ [])
unfolding release release_bulk release_each
release-release_bulk b none v = refl
release-release_bulk b (some slot) v =
    elim (Bool-cases (leb (length b.segments) slot.segment_idx)) [
      | inl e ↦ rw e
      | inr e ↦
          let f : Frees b b.cur_segment slot =
            free_slot-Frees b b.cur_segment slot v (ground arith) in
          rw (e, f.result)
    ]
