-- ===== src/Txn/Duplicates.antt =====
-- The first value of a key with duplicates: txn.go, `getFirstSubPageValue` and
-- `getFirstSubTreeValueReadOnly`. All offsets are `int`.
use gdbx.Base.{
  ℕ, zero, suc, ◌+◌, ◌-◌, ◌/◌, ltb, leb, ◌==◌, if◌then◌else◌, ◌&&◌, ◌||◌, List, length, get_or, Run,
  ok, ◌>>=◌,
}
use gdbx.Bytes.{Bytes, slice, load16, load32}
use gdbx.Page.Header.{page_header_size, page_dupfix, flag_set, invalid_pgno}
use gdbx.Node.Fields.{node_size, node_tree, node_dup}
use gdbx.Txn.Mapping.{Got, value, not_found, corrupted, ReadTxn, page_slice}

-- The bytes of a slice, as a slice.
abbrev pub bytes_of : List ℕ → Bytes
bytes_of xs = record { size = length xs; at = λ i. get_or xs i 0 }

-- The key of the node at `off`, if it ends inside: in a page of duplicates it is the value.
unfoldable pub value_at : Bytes → ℕ → Run Got
unfolding load16 slice
value_at d off = do
  key_size ← load16 d (off + 6)
  if leb (off + node_size + key_size) d.size
      then (do bytes ← slice d (off + node_size) (off + node_size + key_size); ok (value bytes))
      else ok corrupted

unfoldable pub get_first_sub_page_value : Bytes → Run Got
unfolding load16 slice
get_first_sub_page_value d = if ltb d.size page_header_size then ok corrupted else do
  ksize ← load16 d 8
  flags ← load16 d 10
  lower ← load16 d 12
  if flag_set flags page_dupfix && ltb 0 ksize && ltb ksize 65535
      then (if leb (page_header_size + ksize) d.size
          then (do bytes ← slice d page_header_size (page_header_size + ksize); ok (value bytes))
          else ok corrupted)
      else if lower / 2 == 0 || leb lower 0
      then ok not_found
      else if ltb d.size (page_header_size + 2)
      then ok corrupted
      else do
        stored ← load16 d page_header_size
        if ltb d.size (stored + page_header_size + node_size)
            then ok corrupted
            else value_at d (stored + page_header_size)

-- `rounds` levels down, along the first child.
unfoldable pub descend_first : ReadTxn → ℕ → ℕ → Run ℕ
unfolding page_slice load16 load32
descend_first t zero pgno = ok pgno
descend_first t (suc rounds) pgno = do
  d ← page_slice t.mmap_data t.page_bytes pgno
  stored ← load16 d page_header_size
  child ← load32 d (stored + page_header_size)
  descend_first t rounds child

unfoldable pub get_first_sub_tree_value_read_only : ReadTxn → Bytes → Run Got
unfolding load16 load32 page_slice
get_first_sub_tree_value_read_only t tree_data = if ltb tree_data.size 48 then ok corrupted else do
  height ← load16 tree_data 2
  root ← load32 tree_data 8
  if root == invalid_pgno || height == 0 then ok not_found else do
    leaf ← descend_first t (height - 1) root
    d ← page_slice t.mmap_data t.page_bytes leaf
    stored ← load16 d page_header_size
    value_at d (stored + page_header_size)

-- What a lookup makes of the `size` data bytes of a node that is not big.
unfoldable pub first_value : ReadTxn → ℕ → ℕ → List ℕ → Run Got
first_value t flags size bytes =
    if flag_set flags node_tree && leb 48 size
    then get_first_sub_tree_value_read_only t (bytes_of bytes)
    else if flag_set flags node_dup && leb 20 size
    then get_first_sub_page_value (bytes_of bytes)
    else ok (value bytes)
