-- ===== src/Txn/Agree.antt =====
-- The fast lookup against the checked one.
use gdbx.Base.{
  ℕ, ◌+◌, ◌-◌, ◌*◌, ◌≤◌, ◌≡◌, sym, ap, false, Bool-cases, if◌then◌else◌, ◌==◌, ge→ltb, List, arith,
  ok, inl, inr,
}
use gdbx.Bytes.{Bytes, read}
use gdbx.Bytes.Loads.{load8_ok, load16_ok, load32_ok, slice_ok, length-read}
use gdbx.Page.Header.{flag_set}
use gdbx.Node.Fields.{node_big}
use gdbx.Node.Raw.{node_get_data_size_raw}
use gdbx.Node.Reads.{node_offset, field32_ok, page_entry_offset_direct_ok}
use gdbx.Node.Variants.{
  HasKey, key_bytes, data_bytes, key_end, data_length, flags_at, child_and_flags_accessors,
  data_accessors, overflow_accessors,
}
use gdbx.Search.{get_key_and_compare}
use gdbx.Search.Order.{compare_bytes}
use gdbx.Txn.Mapping.{ReadTxn}
use gdbx.Txn.Duplicates.{first_value}
use gdbx.Txn.Get.{node_value}
use gdbx.Txn.Trees.{page_at}
use gdbx.Txn.GetFast.{mapped_from, fast_value}

-- What node `i` says of its data stands in the page: the data, or the number of its overflow page.
abbrev pub HasData : Bytes → ℕ → Type 0
HasData p i =
    if flag_set (flags_at p i) node_big
    then key_end p i + 4 ≤ p.size
    else key_end p i + data_length p i ≤ p.size

span : (a n : ℕ) → a + n - a ≡ n
span a n = omega arith

data_size-ok : (p : Bytes) (i : ℕ) → HasKey p i → node_get_data_size_raw p i ≡ ok (data_length p i)
unfolding node_get_data_size_raw
data_size-ok p i k =
    let nonzero : (node_offset p i == 0) ≡ false = ground arith in
    rw (
      page_entry_offset_direct_ok p i k.table,
      nonzero,
      ge→ltb p.size (node_offset p i + 4) (omega (arith, k.key_fits)),
      field32_ok p k.table.addressable (node_offset p i) (omega (arith, k.key_fits)),
    )

module _ (t : ReadTxn) (g : ℕ) (fits : g * t.page_bytes + t.page_bytes ≤ t.mmap_data.size) where
  pub inside : t.page_bytes ≤ (mapped_from t g).size
  inside = omega (arith, fits)

  -- A comparison reads the page alone.
  pub compare-ok :
      (key : List ℕ) (i : ℕ)
      → HasKey (page_at t g) i
      → get_key_and_compare (mapped_from t g) i key
        ≡ ok (compare_bytes key (key_bytes (page_at t g) i))
  unfolding get_key_and_compare
  compare-ok key i k =
      let room = inside in
      rw
        (
          load16_ok (mapped_from t g) (20 + i * 2)
              (omega (arith, k.table.table_fits, k.table.counted, room)),
          load16_ok (mapped_from t g) (node_offset (page_at t g) i + 6)
              (omega (arith, k.key_fits, room)),
          slice_ok (mapped_from t g) (node_offset (page_at t g) i + 8) (key_end (page_at t g) i)
              (omega arith) (omega (arith, k.key_fits, room)),
        )
        (ap
          (λ n. ok (compare_bytes key (read (page_at t g).at (node_offset (page_at t g) i + 8) n)))
          (omega arith))

  pub fast_value-eq :
      (i : ℕ)
      → HasKey (page_at t g) i
      → HasData (page_at t g) i
      → fast_value t (mapped_from t g) i ≡ node_value t (page_at t g) i
  unfolding fast_value node_value
  fast_value-eq i k stored =
      let room = inside in
      rw
        (
          load16_ok (mapped_from t g) (20 + i * 2)
              (omega (arith, k.table.table_fits, k.table.counted, room)),
          load8_ok (mapped_from t g) (node_offset (page_at t g) i + 4)
              (omega (arith, k.key_fits, room)),
          load32_ok (mapped_from t g) (node_offset (page_at t g) i)
              (omega (arith, k.key_fits, room)),
          load16_ok (mapped_from t g) (node_offset (page_at t g) i + 6)
              (omega (arith, k.key_fits, room)),
          (child_and_flags_accessors (page_at t g) i k).6,
        )
        (elim (Bool-cases (flag_set (flags_at (page_at t g) i) node_big)) [
          | inl e ↦
              let four : key_end (page_at t g) i + 4 ≤ t.page_bytes = rw e at stored in
              rw (
                e,
                load32_ok (mapped_from t g) (key_end (page_at t g) i) (omega (arith, four, room)),
                data_size-ok (page_at t g) i k,
                (overflow_accessors (page_at t g) i k four).1,
              )
          | inr e ↦
              let whole : key_end (page_at t g) i + data_length (page_at t g) i ≤ t.page_bytes =
                rw e at stored in
              rw
                (
                  e,
                  slice_ok (mapped_from t g) (key_end (page_at t g) i)
                      (key_end (page_at t g) i + data_length (page_at t g) i) (omega arith)
                      (omega (arith, whole, room)),
                  (data_accessors (page_at t g) i k e whole).2,
                  span (key_end (page_at t g) i) (data_length (page_at t g) i),
                )
                (ap (λ n. first_value t (flags_at (page_at t g) i) n (data_bytes (page_at t g) i))
                  (sym (
                    length-read (page_at t g).at (key_end (page_at t g) i)
                      (data_length (page_at t g) i))))
        ])
