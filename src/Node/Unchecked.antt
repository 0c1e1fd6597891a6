-- ===== src/Node/Unchecked.antt =====
-- The accessors of node.go on raw page bytes that check nothing.
use gdbx.Base.{ℕ, ◌+◌, ◌-◌, ◌*◌, ◌/◌, if◌then◌else◌, List, Option, none, some, Run, ok, ◌>>=◌}
use gdbx.Bytes.{Bytes, load8, load16, slice}
use gdbx.Page.Header.{flag_set, add16, page_header_size}
use gdbx.Page.Entries.{page_entry_offset_unchecked}
use gdbx.Node.Fields.{node_size, node_big, field16, field32}

unfoldable pub node_get_key_unchecked : Bytes → ℕ → Run (List ℕ)
unfolding page_entry_offset_unchecked field16 slice
node_get_key_unchecked d idx = do
  off ← page_entry_offset_unchecked d idx
  key_size ← field16 d off 6
  slice d (add16 off node_size) (off + node_size + key_size)

unfoldable pub node_get_data_unchecked : Bytes → ℕ → Run (List ℕ)
unfolding page_entry_offset_unchecked field16 field32 slice
node_get_data_unchecked d idx = do
  off ← page_entry_offset_unchecked d idx
  data_size ← field32 d off
  key_size ← field16 d off 6
  slice d (off + node_size + key_size) (off + node_size + key_size + data_size)

unfoldable pub node_get_child_pgno_unchecked : Bytes → ℕ → Run ℕ
unfolding page_entry_offset_unchecked field32
node_get_child_pgno_unchecked d idx = do off ← page_entry_offset_unchecked d idx; field32 d off

unfoldable pub node_get_flags_unchecked : Bytes → ℕ → Run ℕ
unfolding page_entry_offset_unchecked load8
node_get_flags_unchecked d idx = do off ← page_entry_offset_unchecked d idx; load8 d (add16 off 4)

-- The key, the flags and the data, which are nil for a big node.
unfoldable pub node_get_node_data_unchecked : Bytes → ℕ → Run (List ℕ × ℕ × Option (List ℕ))
unfolding page_entry_offset_unchecked field16 field32 load8 slice
node_get_node_data_unchecked d idx = do
  off ← page_entry_offset_unchecked d idx
  data_size ← field32 d off
  flags ← load8 d (add16 off 4)
  key_size ← field16 d off 6
  key ← slice d (off + node_size) (off + node_size + key_size)
  if flag_set flags node_big then ok (key, flags, none) else do
    content ← slice d (off + node_size + key_size) (off + node_size + key_size + data_size)
    ok (key, flags, some content)

unfoldable pub node_get_first_child_pgno : Bytes → Run ℕ
unfolding load16 field32
node_get_first_child_pgno d = do s ← load16 d page_header_size; field32 d (add16 s page_header_size)

-- The offset is an `int` here, so the reads do not wrap; the sum that it is made from does.
unfoldable pub node_get_first_key : Bytes → Run (List ℕ)
unfolding load16 slice
node_get_first_key d = do
  s ← load16 d page_header_size
  let off = add16 s page_header_size
  key_size ← load16 d (off + 6)
  slice d (off + node_size) (off + node_size + key_size)

-- With no entries `lastIdx` is -1, and the two bytes before the table are read.
unfoldable pub node_get_last_child_pgno : Bytes → Run ℕ
unfolding load16 field32
node_get_last_child_pgno d = do
  lower ← load16 d 12
  s ← load16 d (page_header_size + lower / 2 * 2 - 2)
  field32 d (add16 s page_header_size)

unfoldable pub node_get_last_key : Bytes → Run (List ℕ)
unfolding load16 slice
node_get_last_key d = do
  lower ← load16 d 12
  s ← load16 d (page_header_size + lower / 2 * 2 - 2)
  let off = add16 s page_header_size
  key_size ← load16 d (off + 6)
  slice d (off + node_size) (off + node_size + key_size)
