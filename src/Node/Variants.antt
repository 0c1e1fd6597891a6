-- ===== src/Node/Variants.antt =====
-- The variants of an accessor (`Direct`, `Raw`, `Unchecked`, `Fast`) against one another, and
-- against the bytes of the node.
use gdbx.Base.{
  ℕ, ◌+◌, ◌%◌, ◌≤◌, ◌<◌, ◌≡◌, arith, ltb, lt→ltb, false, true, List, some, ok, panic, ge→ltb, ◌==◌,
  ap, ◌∙◌,
}
use gdbx.Bytes.{Bytes, read, load8, word16, word32, slice}
use gdbx.Bytes.Loads.{load8_ok, slice_ok, slice_panics}
use gdbx.Page.Header.{add16, flag_set, invalid_pgno}
use gdbx.Page.Entries.{
  entry_offset, entry_offset_fast, page_entry_offset_direct, page_entry_offset_unchecked,
}
use gdbx.Node.Fields.{field16, field32, int_field32, node_size, node_big}
use gdbx.Node.Reads.{
  InTable, node_offset, field16_ok, field32_ok, int_field32_ok, entry_offset_ok,
  entry_offset_fast_ok, page_entry_offset_direct_ok, page_entry_offset_unchecked_ok,
}
use gdbx.Node.Direct.{
  node_get_key_direct, node_get_data_direct, node_get_child_pgno_direct, node_get_flags_direct,
  node_get_overflow_pgno_direct,
}
use gdbx.Node.Raw.{
  node_get_key_raw, node_get_data_raw, node_get_child_pgno_raw, node_get_flags_raw,
  node_get_overflow_pgno_raw,
}
use gdbx.Node.Unchecked.{
  node_get_key_unchecked, node_get_data_unchecked, node_get_child_pgno_unchecked,
  node_get_flags_unchecked,
}
use gdbx.Node.Fast.{
  node_get_key_fast, node_get_data_fast, node_get_child_pgno_fast, node_get_flags_fast,
}

abbrev pub key_length : Bytes → ℕ → ℕ
key_length p i = word16 p.at (node_offset p i + 6)

abbrev pub data_length : Bytes → ℕ → ℕ
data_length p i = word32 p.at (node_offset p i)

abbrev pub flags_at : Bytes → ℕ → ℕ
flags_at p i = p.at (node_offset p i + 4)

abbrev pub key_end : Bytes → ℕ → ℕ
key_end p i = node_offset p i + node_size + key_length p i

-- The bytes of the key and of the data of node `i`.
abbrev pub key_bytes : Bytes → ℕ → List ℕ
key_bytes p i = read p.at (node_offset p i + node_size) (key_length p i)

abbrev pub data_bytes : Bytes → ℕ → List ℕ
data_bytes p i = read p.at (key_end p i) (data_length p i)

-- The header and the key of node `i` stand in the page.
pub record HasKey (p : Bytes) (i : ℕ) : Type 0 where
  pub table : InTable p i
  pub key_fits : key_end p i ≤ p.size

not_zero : (p : Bytes) (i : ℕ) → (node_offset p i == 0) ≡ false
not_zero p i = ground arith

module _ (p : Bytes) (i : ℕ) (k : HasKey p i) where
  -- The four ways to the offset of node `i`, and the two reads that follow them.
  direct : entry_offset p i ≡ ok (node_offset p i)
  direct = entry_offset_ok p i k.table

  fast : entry_offset_fast p i ≡ ok (node_offset p i)
  fast = entry_offset_fast_ok p i k.table

  raw : page_entry_offset_direct p i ≡ ok (node_offset p i)
  raw = page_entry_offset_direct_ok p i k.table

  unchecked : page_entry_offset_unchecked p i ≡ ok (node_offset p i)
  unchecked = page_entry_offset_unchecked_ok p i k.table

  header_fits : ltb p.size (node_offset p i + node_size) ≡ false
  header_fits = ge→ltb p.size (node_offset p i + node_size) (omega (arith, k.key_fits))

  key_is_inside : ltb p.size (key_end p i) ≡ false
  key_is_inside = ge→ltb p.size (key_end p i) k.key_fits

  key_length_ok : field16 p (node_offset p i) 6 ≡ ok (key_length p i)
  key_length_ok = field16_ok p k.table.addressable (node_offset p i) 6 (omega (arith, k.key_fits))

  data_length_ok : field32 p (node_offset p i) ≡ ok (data_length p i)
  data_length_ok = field32_ok p k.table.addressable (node_offset p i) (omega (arith, k.key_fits))

  flags_ok : load8 p (add16 (node_offset p i) 4) ≡ ok (flags_at p i)
  flags_ok =
      let e : add16 (node_offset p i) 4 ≡ node_offset p i + 4 =
        omega (arith, k.key_fits, k.table.addressable) in
      rw e (load8_ok p (node_offset p i + 4) (omega (arith, k.key_fits)))

  pub key_slice : slice p (node_offset p i + node_size) (key_end p i) ≡ ok (key_bytes p i)
  key_slice =
      slice_ok p (node_offset p i + node_size) (key_end p i) (omega arith) k.key_fits
      ∙ ap (λ n. ok (read p.at (node_offset p i + node_size) n)) (omega arith)

  pub key_unchecked :
      node_offset p i + node_size < 65536 → node_get_key_unchecked p i ≡ ok (key_bytes p i)
  unfolding node_get_key_unchecked
  key_unchecked reach =
      let start : add16 (node_offset p i) node_size ≡ node_offset p i + node_size =
        omega (arith, reach) in
      rw (unchecked, key_length_ok, start, key_slice)

  module _ (below : key_end p i < 65536) where
    start_ok : add16 (node_offset p i) node_size ≡ node_offset p i + node_size
    start_ok = omega (arith, below)

    end_ok : key_end p i % 65536 ≡ key_end p i
    end_ok = omega (arith, below)

    -- On a page of at most 64 KB, where the key of node `i` ends inside the page and below offset
    -- 65536, `nodeGetKeyDirect`, `nodeGetKeyRaw`, `nodeGetKeyUnchecked` and `nodeGetKeyFast` all
    -- return the bytes of the key, without a panic.
    pub key_accessors :
        (node_get_key_direct p i ≡ ok (some (key_bytes p i)))
        × (node_get_key_raw p i ≡ ok (some (key_bytes p i)))
        × (node_get_key_unchecked p i ≡ ok (key_bytes p i))
        × (node_get_key_fast p i ≡ ok (key_bytes p i))
    unfolding node_get_key_direct node_get_key_raw node_get_key_unchecked node_get_key_fast
    key_accessors = (
      rw (
        direct,
        not_zero p i,
        header_fits,
        key_length_ok,
        end_ok,
        key_is_inside,
        start_ok,
        key_slice,
      ),
      rw (raw, not_zero p i, header_fits, key_length_ok, key_is_inside, start_ok, key_slice),
      rw (unchecked, key_length_ok, start_ok, key_slice),
      rw (fast, key_length_ok, end_ok, start_ok, key_slice),
    )

  -- A key of at least one byte that ends at offset 65536, the end of a page of the largest size that
  -- `SetPageSize` accepts: the end of the slice wraps to 0, so `nodeGetKeyDirect` and
  -- `nodeGetKeyFast` panic, while `nodeGetKeyRaw` and `nodeGetKeyUnchecked` return the key.
  pub key_at_64k_end :
      key_end p i ≡ 65536
      → 0 < key_length p i
      → (node_get_key_direct p i ≡ panic)
        × (node_get_key_fast p i ≡ panic)
        × (node_get_key_raw p i ≡ ok (some (key_bytes p i)))
        × (node_get_key_unchecked p i ≡ ok (key_bytes p i))
  unfolding node_get_key_direct node_get_key_raw node_get_key_unchecked node_get_key_fast
  key_at_64k_end last some_key =
      let start : add16 (node_offset p i) node_size ≡ node_offset p i + node_size =
        omega (arith, last, some_key) in
      let wrapped : key_end p i % 65536 ≡ 0 = omega (arith, last) in
      let none_below : ltb p.size 0 ≡ false = ge→ltb p.size 0 (omega arith) in
      let empty : slice p (node_offset p i + node_size) 0 ≡ panic =
        slice_panics p (node_offset p i + node_size) 0 (omega arith) in
      (
        rw (direct, not_zero p i, header_fits, key_length_ok, wrapped, none_below, start, empty),
        rw (fast, key_length_ok, wrapped, start, empty),
        rw (raw, not_zero p i, header_fits, key_length_ok, key_is_inside, start, key_slice),
        rw (unchecked, key_length_ok, start, key_slice),
      )

  -- The data stand in the page, and the node is not big.
  module _ (inline : flag_set (flags_at p i) node_big ≡ false)
      (data_fit : key_end p i + data_length p i ≤ p.size) where
    data_slice : slice p (key_end p i) (key_end p i + data_length p i) ≡ ok (data_bytes p i)
    data_slice =
        slice_ok p (key_end p i) (key_end p i + data_length p i) (omega arith) data_fit
        ∙ ap (λ n. ok (read p.at (key_end p i) n)) (omega arith)

    data_is_inside : ltb p.size (key_end p i + data_length p i) ≡ false
    data_is_inside = ge→ltb p.size (key_end p i + data_length p i) data_fit

    -- Where node `i` is not big and its header, key and data stand in a page of at most 64 KB, the
    -- four accessors of the data return the bytes that follow the key, without a panic.
    pub data_accessors :
        (node_get_data_direct p i ≡ ok (some (data_bytes p i)))
        × (node_get_data_raw p i ≡ ok (some (data_bytes p i)))
        × (node_get_data_unchecked p i ≡ ok (data_bytes p i))
        × (node_get_data_fast p i ≡ ok (data_bytes p i))
    unfolding node_get_data_direct node_get_data_raw node_get_data_unchecked node_get_data_fast
    data_accessors = (
      rw (
        direct,
        not_zero p i,
        header_fits,
        data_length_ok,
        flags_ok,
        key_length_ok,
        inline,
        data_is_inside,
        data_slice,
      ),
      rw (
        raw,
        not_zero p i,
        header_fits,
        data_length_ok,
        flags_ok,
        key_length_ok,
        inline,
        data_is_inside,
        data_slice,
      ),
      rw (unchecked, data_length_ok, key_length_ok, data_slice),
      rw (fast, data_length_ok, key_length_ok, data_slice),
    )

  fits4 : ltb p.size (node_offset p i + 4) ≡ false
  fits4 = ge→ltb p.size (node_offset p i + 4) (omega (arith, k.key_fits))

  fits5 : ltb p.size (node_offset p i + 5) ≡ false
  fits5 = ge→ltb p.size (node_offset p i + 5) (omega (arith, k.key_fits))

  -- On a page whose node `i` is inside, the accessors of the child's page number agree on the first
  -- four bytes of the node, and those of the flags on its fifth byte.
  pub child_and_flags_accessors :
      (node_get_child_pgno_direct p i ≡ ok (data_length p i))
      × (node_get_child_pgno_raw p i ≡ ok (data_length p i))
      × (node_get_child_pgno_unchecked p i ≡ ok (data_length p i))
      × (node_get_child_pgno_fast p i ≡ ok (data_length p i))
      × (node_get_flags_direct p i ≡ ok (flags_at p i))
      × (node_get_flags_raw p i ≡ ok (flags_at p i))
      × (node_get_flags_unchecked p i ≡ ok (flags_at p i))
      × (node_get_flags_fast p i ≡ ok (flags_at p i))
  unfolding node_get_child_pgno_direct node_get_child_pgno_raw node_get_child_pgno_unchecked
      node_get_child_pgno_fast node_get_flags_direct node_get_flags_raw node_get_flags_unchecked
      node_get_flags_fast
  child_and_flags_accessors = (
    rw (direct, not_zero p i, fits4, data_length_ok),
    rw (raw, not_zero p i, fits4, data_length_ok),
    rw (unchecked, data_length_ok),
    rw (fast, data_length_ok),
    rw (direct, not_zero p i, fits5, flags_ok),
    rw (raw, not_zero p i, fits5, flags_ok),
    rw (unchecked, flags_ok),
    rw (fast, flags_ok),
  )

  -- Where the four bytes after the key of node `i` stand in a page of at most 64 KB, both accessors of
  -- a big node's overflow page return their little-endian value.
  pub overflow_accessors :
      key_end p i + 4 ≤ p.size
      → (node_get_overflow_pgno_direct p i ≡ ok (word32 p.at (key_end p i)))
        × (node_get_overflow_pgno_raw p i ≡ ok (word32 p.at (key_end p i)))
  unfolding node_get_overflow_pgno_direct node_get_overflow_pgno_raw
  overflow_accessors room =
      let inside : ltb p.size (key_end p i + 4) ≡ false = ge→ltb p.size (key_end p i + 4) room in
      let value : int_field32 p (key_end p i) ≡ ok (word32 p.at (key_end p i)) =
        int_field32_ok p (key_end p i) (omega (arith, room)) in
      (
        rw (direct, not_zero p i, header_fits, key_length_ok, inside, value),
        rw (raw, not_zero p i, header_fits, key_length_ok, inside, value),
      )

  -- Where the header and the key of node `i` stand in a page of at most 64 KB, but not all of the four
  -- bytes after the key, both accessors of its overflow page return the invalid page number.
  pub overflow_accessors_short :
      p.size < key_end p i + 4
      → (node_get_overflow_pgno_direct p i ≡ ok invalid_pgno)
        × (node_get_overflow_pgno_raw p i ≡ ok invalid_pgno)
  unfolding node_get_overflow_pgno_direct node_get_overflow_pgno_raw
  overflow_accessors_short short =
      let outside : ltb p.size (key_end p i + 4) ≡ true = lt→ltb p.size (key_end p i + 4) short in
      (
        rw (direct, not_zero p i, header_fits, key_length_ok, outside),
        rw (raw, not_zero p i, header_fits, key_length_ok, outside),
      )
