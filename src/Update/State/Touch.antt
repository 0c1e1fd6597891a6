-- ===== src/Update/State/Touch.antt =====
-- The steps of touching a page: a slot for it, its copy, and the pointer to it.
use gdbx.Base.{
  ℕ, suc, ◌+◌, ◌*◌, ◌/◌, ◌^◌, ◌≤◌, ◌<◌, ◌≡◌, refl, ap, ◌∙◌, ◌⊎◌, inl, inr, true, false, List,
  Option, length, ok, arith, gt→leb, ◌==◌,
}
use gdbx.Bytes.{
  Bytes, read, word16, word32, write32, write64, write_list, store32, store64, copy_list,
}
use gdbx.Bytes.Loads.{
  load16_ok, store32_ok, store64_ok, copy_list_ok, word32-write32_self, length-read, get_or-read,
  write_list_inside,
}
use gdbx.Page.Header.{add16}
use gdbx.Page.Shape.{num_entries-count}
use gdbx.Page.Entries.{num_entries, entry_offset}
use gdbx.Spill.Buffer.{Buffer, Slot, allocate_slot}
use gdbx.Spill.Buffer.Invariant.{IsBuffer}
use gdbx.Spill.Buffer.Current.{Gives}
use gdbx.Spill.Buffer.Allocate.{allocate_slot-Gives}
use gdbx.Update.State.{System, WriteTxn, new_slot, update_child_pointer, update}

-- Entry `idx` of the page is a node between the table and the end, and its child is `child`.
pub record Points (p : Bytes) (idx child : ℕ) : Type 0 where
  pub counted : idx < word16 p.at 12 / 2
  pub low : word16 p.at 12 ≤ word16 p.at (20 + idx * 2)
  pub fits : word16 p.at (20 + idx * 2) + 24 ≤ p.size
  pub child_ok : word32 p.at (word16 p.at (20 + idx * 2) + 20) ≡ child

-- Bytes that agree where a header and a table say so.
pub word16_congr :
    (f g : ℕ → ℕ) (i : ℕ) → f i ≡ g i → f (i + 1) ≡ g (i + 1) → word16 f i ≡ word16 g i
word16_congr f g i h k = rw (h, k)

word32_congr :
    (f g : ℕ → ℕ) (i : ℕ) → ((k : ℕ) → k < 4 → f (i + k) ≡ g (i + k)) → word32 f i ≡ word32 g i
word32_congr f g i h =
    ground (arith, h 0 (omega arith), h 1 (omega arith), h 2 (omega arith), h 3 (omega arith))

write32_other : (f : ℕ → ℕ) (i v x : ℕ) → (x < i) ⊎ (i + 4 ≤ x) → write32 f i v x ≡ f x
write32_other f i v x h = ground arith

write64_other : (f : ℕ → ℕ) (i v x : ℕ) → (x < i) ⊎ (i + 8 ≤ x) → write64 f i v x ≡ f x
write64_other f i v x h = ground arith

-- A page that agrees from the entry count on points to the same child.
pub Points-same :
    (p q : Bytes) (idx child : ℕ)
    → q.size ≡ p.size
    → ((x : ℕ) → (x ≡ 12) ⊎ ((x ≡ 13) ⊎ (20 ≤ x)) → x < p.size → q.at x ≡ p.at x)
    → Points p idx child
    → Points q idx child
Points-same p q idx child e same h =
    let off : ℕ = word16 p.at (20 + idx * 2) in
    let big : 20 + idx * 2 + 1 < p.size = omega (arith, h.counted, h.low, h.fits) in
    let lower : word16 q.at 12 ≡ word16 p.at 12 =
      word16_congr q.at p.at 12 (same 12 (inl refl) (omega arith))
        (same 13 (inr (inl refl)) (omega arith)) in
    let entry : word16 q.at (20 + idx * 2) ≡ off =
      word16_congr q.at p.at (20 + idx * 2)
        (same (20 + idx * 2) (inr (inr (omega arith))) (omega arith))
        (same (20 + idx * 2 + 1) (inr (inr (omega arith))) (omega arith)) in
    record {
      counted = rw lower h.counted;
      low = rw (lower, entry) h.low;
      fits = rw (entry, e) h.fits;
      child_ok = rw entry (
          word32_congr q.at p.at (off + 20)
            (λ k lt. same (off + 20 + k) (inr (inr (omega arith))) (omega (arith, h.fits)))
          ∙ h.child_ok);
    }

-- The bytes beside the entry's pointer.
abbrev pub BesidePointer : Bytes → ℕ → ℕ → Type 0
BesidePointer p idx x =
    (x < word16 p.at (20 + idx * 2) + 20) ⊎ (word16 p.at (20 + idx * 2) + 24 ≤ x)

-- The bytes of a page beside its transaction id and its page number.
abbrev pub InBody : ℕ → Type 0
InBody x = ((8 ≤ x) × (x < 16)) ⊎ (20 ≤ x)

-- The page that is pointed at another child.
abbrev pub Pointed : (p : Bytes) (idx child : ℕ) → Type 0
Pointed p idx child =
    (q : Bytes) × (update_child_pointer p idx child ≡ ok q)
    × (q.size ≡ p.size)
    × Points q idx child
    × (word32 q.at 16 ≡ word32 p.at 16)
    × ((x : ℕ) → BesidePointer p idx x → q.at x ≡ p.at x)

pub update_child_pointer_lem :
    (p : Bytes) (idx old child : ℕ)
    → p.size ≤ 65536
    → child < 2 ^ 32
    → Points p idx old
    → Pointed p idx child
unfolding update_child_pointer entry_offset num_entries
update_child_pointer_lem p idx old child small bound h =
    let s : ℕ = word16 p.at (20 + idx * 2) in
    let big : 24 ≤ p.size = omega (arith, h.fits) in
    let wide : add16 s 20 ≡ s + 20 = omega (arith, h.fits) in
    let loaded = load16_ok p (20 + idx * 2) (omega (arith, h.counted, h.low, h.fits)) in
    let n : num_entries p ≡ word16 p.at 12 / 2 = num_entries-count p (omega arith) in
    let q : Bytes = record p { at = write32 p.at (s + 20) child } in
    let same : (x : ℕ) → x < s + 20 → q.at x ≡ p.at x =
      λ x lt. write32_other p.at (s + 20) child x (inl lt) in
    let lower : word16 q.at 12 ≡ word16 p.at 12 =
      word16_congr q.at p.at 12 (same 12 (omega arith)) (same 13 (omega arith)) in
    let entry : word16 q.at (20 + idx * 2) ≡ s =
      word16_congr q.at p.at (20 + idx * 2) (same (20 + idx * 2) (omega (arith, h.counted, h.low)))
        (same (20 + idx * 2 + 1) (omega (arith, h.counted, h.low))) in
    let there : (s + 20 == 0) ≡ false = ground arith in
    (
      q,
      rw (
        n,
        gt→leb (word16 p.at 12 / 2) idx h.counted,
        loaded,
        wide,
        there,
        store32_ok p (s + 20) child (omega (arith, h.fits)),
      ),
      refl,
      record {
        counted = rw lower h.counted;
        low = rw (lower, entry) h.low;
        fits = rw entry h.fits;
        child_ok = rw entry (word32-write32_self p.at (s + 20) child bound);
      },
      word32_congr q.at p.at 16 (λ k lt. same (16 + k) (omega arith)),
      λ x h. write32_other p.at (s + 20) child x (ground arith),
    )

-- The transaction id stands in the header of `q`.
abbrev pub IsStamped : Bytes → Bytes → ℕ → Type 0
IsStamped p q txn_id = (x : ℕ) → x < 8 → q.at x ≡ write64 p.at 0 txn_id x

write64_stamp : (f g : ℕ → ℕ) (v x : ℕ) → x < 8 → write64 f 0 v x ≡ write64 g 0 v x
write64_stamp f g v x lt = ground arith

-- The copy of a page under a new number, of a transaction.
abbrev pub CopiesTo : Bytes → Bytes → ℕ → ℕ → Type 0
CopiesTo orig data_bytes new txn_id =
    (d1 d2 d3 : Bytes) × (copy_list data_bytes 0 (read orig.at 0 orig.size) ≡ ok d1)
    × (store32 d1 16 new ≡ ok d2)
    × (store64 d2 0 txn_id ≡ ok d3)
    × (d3.size ≡ orig.size)
    × (word32 d3.at 16 ≡ new)
    × ((idx child : ℕ) → Points orig idx child → Points d3 idx child)
    × ((x : ℕ) → InBody x → x < orig.size → d3.at x ≡ orig.at x)
    × IsStamped orig d3 txn_id

pub copy_lem :
    (orig data_bytes : Bytes) (new txn_id : ℕ)
    → data_bytes.size ≡ orig.size
    → 20 ≤ orig.size
    → new < 2 ^ 32
    → CopiesTo orig data_bytes new txn_id
copy_lem orig data_bytes new txn_id e big bound =
    let src : List ℕ = read orig.at 0 orig.size in
    let len : length src ≡ orig.size = length-read orig.at 0 orig.size in
    let f1 : ℕ → ℕ = write_list data_bytes.at 0 (length src) src in
    let d1 : Bytes = record data_bytes { at = f1 } in
    let d2 : Bytes = record d1 { at = write32 f1 16 new } in
    let d3 : Bytes = record d2 { at = write64 d2.at 0 txn_id } in
    let copied : (x : ℕ) → x < orig.size → f1 x ≡ orig.at x = λ x lt.
      ap f1 (omega arith)
      ∙ write_list_inside data_bytes.at 0 (length src) src x (omega (arith, len))
      ∙ get_or-read orig.at 0 orig.size x lt
      ∙ ap orig.at (omega arith) in
    let same : (x : ℕ) → InBody x → x < orig.size → d3.at x ≡ orig.at x = λ x h lt.
      write64_other d2.at 0 txn_id x (inr (past x h))
      ∙ write32_other f1 16 new x (beside x h)
      ∙ copied x lt in
    (
      d1,
      d2,
      d3,
      copy_list_ok data_bytes 0 src (omega (arith, len, e)),
      store32_ok d1 16 new (omega (arith, e)),
      store64_ok d2 0 txn_id (omega (arith, e)),
      e,
      word32_congr d3.at d2.at 16
            (λ k lt. write64_other d2.at 0 txn_id (16 + k) (inr (omega arith)))
          ∙ word32-write32_self f1 16 new bound,
      λ idx child h. Points-same orig d3 idx child e (λ x g. same x (ground arith)) h,
      same,
      λ x lt. write64_stamp d2.at orig.at txn_id x lt,
    )
  where
    past : (x : ℕ) → InBody x → 0 + 8 ≤ x
    past x h = ground arith

    beside : (x : ℕ) → InBody x → (x < 16) ⊎ (16 + 4 ≤ x)
    beside x h = ground arith

-- The spill buffer has room for `k` pages more, as far as its segments go.
pub record Supplies (sys : System) (t : WriteTxn) (k : ℕ) : Type 0 where
  pub buffer : IsBuffer t.spill
  pub paged : t.spill.page_size ≡ t.page_bytes
  pub few : length t.spill.segments + k < 2 ^ 16
  pub creates : (path : List ℕ) (size : ℕ) → sys.creates path size ≡ true
  pub some_bytes : 20 ≤ t.page_bytes

-- A slot is had, and nothing of the transaction changes but the spill buffer.
abbrev pub Gets : System → WriteTxn → ℕ → ℕ → Type 0
Gets sys t n k =
    (d : Bytes) × (b : Buffer) × (slots : ℕ → Option Slot) × (new_slot sys t n
      ≡ ok (d, record t { spill = b; spill_slots = slots }))
    × (d.size ≡ t.page_bytes)
    × Supplies sys (record t { spill = b; spill_slots = slots }) k

pub new_slot_lem : (sys : System) (t : WriteTxn) (n k : ℕ) → Supplies sys t (suc k) → Gets sys t n k
unfolding new_slot
new_slot_lem sys t n k s =
    let g : Gives t.spill (allocate_slot sys.creates t.spill) =
      allocate_slot-Gives sys.creates t.spill s.buffer (omega (arith, s.few))
        (omega (arith, s.paged, s.some_bytes)) s.creates in
    (
      record {
        size = t.spill.page_size;
        at =
            sys.left_over
              (record { segment = g.i; offset = g.s * t.spill.page_size; len = t.spill.page_size });
      },
      g.left,
      update t.spill_slots n (record { pgno = 0; segment_idx = g.i; slot_idx = g.s }),
      rw g.result,
      s.paged,
      record {
        buffer = g.still;
        paged = g.same_pages ∙ s.paged;
        few = omega (arith, s.few, g.grew);
        creates = s.creates;
        some_bytes = s.some_bytes;
      },
    )
