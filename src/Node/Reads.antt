-- ===== src/Node/Reads.antt =====
-- The reads within a node, where they stay inside the page.
use gdbx.Base.{ℕ, ◌+◌, ◌*◌, ◌/◌, ◌≤◌, ◌<◌, ◌≡◌, arith, lt→ltb, ok, ge→ltb, gt→leb}
use gdbx.Bytes.{Bytes, load16, word16, word32}
use gdbx.Bytes.Loads.{load16_ok}
use gdbx.Page.Header.{add16, page_header_size, header}
use gdbx.Page.Entries.{
  num_entries, entry_offset, entry_offset_fast, page_entry_offset_direct,
  page_entry_offset_unchecked,
}
use gdbx.Node.Fields.{field16, field32, int_field32}

module _ (d : Bytes) (small : d.size ≤ 65536) (off : ℕ) where
  pub field16_ok : (k : ℕ) → off + k + 1 < d.size → field16 d off k ≡ ok (word16 d.at (off + k))
  unfolding field16
  field16_ok k h =
      let e : add16 off k ≡ off + k = omega arith in
      let e' : add16 off (k + 1) ≡ off + k + 1 = omega arith in
      rw (e, e', lt→ltb (off + k) d.size (omega arith), lt→ltb (off + k + 1) d.size h)

  pub field32_ok : off + 3 < d.size → field32 d off ≡ ok (word32 d.at off)
  unfolding field32
  field32_ok h =
      let e : add16 off 1 ≡ off + 1 = omega arith in
      let e' : add16 off 2 ≡ off + 2 = omega arith in
      let third : add16 off 3 ≡ off + 3 = omega arith in
      rw (
        e,
        e',
        third,
        lt→ltb off d.size (omega arith),
        lt→ltb (off + 1) d.size (omega arith),
        lt→ltb (off + 2) d.size (omega arith),
        lt→ltb (off + 3) d.size h,
      )

pub int_field32_ok : (d : Bytes) (i : ℕ) → i + 3 < d.size → int_field32 d i ≡ ok (word32 d.at i)
unfolding int_field32
int_field32_ok d i h = rw (
  lt→ltb i d.size (omega arith),
  lt→ltb (i + 1) d.size (omega arith),
  lt→ltb (i + 2) d.size (omega arith),
  lt→ltb (i + 3) d.size h,
)

-- The offset of node `i` in the page, as the entry table has it.
abbrev pub stored_offset : Bytes → ℕ → ℕ
stored_offset p i = word16 p.at (page_header_size + i * 2)

abbrev pub node_offset : Bytes → ℕ → ℕ
node_offset p i = stored_offset p i + page_header_size

-- Entry `i` stands in the table, and the table in the page.
pub record InTable (p : Bytes) (i : ℕ) : Type 0 where
  pub counted : i < word16 p.at 12 / 2
  pub table_fits : page_header_size + (word16 p.at 12 / 2) * 2 ≤ p.size
  pub addressable : p.size ≤ 65536
  pub reachable : node_offset p i < 65536

module _ (p : Bytes) (i : ℕ) (t : InTable p i) where
  pub num_entries_lem : num_entries p ≡ word16 p.at 12 / 2
  unfolding num_entries header
  num_entries_lem = ground (arith, t.table_fits)

  stored_ok : load16 p (page_header_size + i * 2) ≡ ok (stored_offset p i)
  stored_ok = load16_ok p (page_header_size + i * 2) (omega (arith, t.table_fits, t.counted))

  pub entry_offset_fast_ok : entry_offset_fast p i ≡ ok (node_offset p i)
  unfolding entry_offset_fast
  entry_offset_fast_ok =
      let e : add16 (stored_offset p i) page_header_size ≡ node_offset p i =
        omega (arith, t.reachable) in
      rw (stored_ok, e)

  pub entry_offset_ok : entry_offset p i ≡ ok (node_offset p i)
  unfolding entry_offset
  entry_offset_ok =
      let e : add16 (stored_offset p i) page_header_size ≡ node_offset p i =
        omega (arith, t.reachable) in
      rw (gt→leb (num_entries p) i (rw num_entries_lem t.counted), stored_ok, e)

  pub page_entry_offset_direct_ok : page_entry_offset_direct p i ≡ ok (node_offset p i)
  unfolding page_entry_offset_direct
  page_entry_offset_direct_ok =
      let e : add16 (stored_offset p i) page_header_size ≡ node_offset p i =
        omega (arith, t.reachable) in
      rw (
        ge→ltb p.size page_header_size (omega (arith, t.table_fits)),
        load16_ok p 12 (omega (arith, t.table_fits)),
        gt→leb (word16 p.at 12 / 2) i t.counted,
        stored_ok,
        e,
      )

  pub page_entry_offset_unchecked_ok : page_entry_offset_unchecked p i ≡ ok (node_offset p i)
  unfolding page_entry_offset_unchecked
  page_entry_offset_unchecked_ok =
      let e : add16 (stored_offset p i) page_header_size ≡ node_offset p i =
        omega (arith, t.reachable) in
      rw (stored_ok, e)
