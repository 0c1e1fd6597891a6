-- ===== src/Node/Raw.antt =====
-- The accessors of node.go on raw page bytes that check their bounds: `nodeGet…Raw`.
use gdbx.Base.{ℕ, ◌+◌, ◌||◌, ltb, ◌==◌, if◌then◌else◌, List, Option, none, Run, ok, ◌>>=◌}
use gdbx.Bytes.{Bytes, load8, slice}
use gdbx.Page.Header.{flag_set, invalid_pgno, add16}
use gdbx.Page.Entries.{page_entry_offset_direct}
use gdbx.Node.Fields.{node_size, node_big, field16, field32, int_field32}
use gdbx.Node.Object.{some_slice}

-- The end of the slice is an `int`, its start a `uint16`.
unfoldable pub node_get_key_raw : Bytes → ℕ → Run (Option (List ℕ))
unfolding page_entry_offset_direct field16 slice
node_get_key_raw p idx = do
  off ← page_entry_offset_direct p idx
  if off == 0 || ltb p.size (off + node_size) then ok none else do
    key_size ← field16 p off 6
    if ltb p.size (off + node_size + key_size)
        then ok none
        else some_slice p (add16 off node_size) (off + node_size + key_size)

-- A big node has its data elsewhere: nil.
unfoldable pub node_get_data_raw : Bytes → ℕ → Run (Option (List ℕ))
unfolding page_entry_offset_direct field16 field32 load8 slice
node_get_data_raw p idx = do
  off ← page_entry_offset_direct p idx
  if off == 0 || ltb p.size (off + node_size) then ok none else do
    data_size ← field32 p off
    flags ← load8 p (add16 off 4)
    key_size ← field16 p off 6
    let start = off + node_size + key_size
    if flag_set flags node_big || ltb p.size (start + data_size)
        then ok none
        else some_slice p start (start + data_size)

unfoldable pub node_get_child_pgno_raw : Bytes → ℕ → Run ℕ
unfolding page_entry_offset_direct field32
node_get_child_pgno_raw p idx = do
  off ← page_entry_offset_direct p idx
  if off == 0 || ltb p.size (off + 4) then ok invalid_pgno else field32 p off

unfoldable pub node_get_flags_raw : Bytes → ℕ → Run ℕ
unfolding page_entry_offset_direct load8
node_get_flags_raw p idx = do
  off ← page_entry_offset_direct p idx
  if off == 0 || ltb p.size (off + 5) then ok 0 else load8 p (add16 off 4)

unfoldable pub node_get_overflow_pgno_raw : Bytes → ℕ → Run ℕ
unfolding page_entry_offset_direct field16 int_field32
node_get_overflow_pgno_raw p idx = do
  off ← page_entry_offset_direct p idx
  if off == 0 || ltb p.size (off + node_size) then ok invalid_pgno else do
    key_size ← field16 p off 6
    let start = off + node_size + key_size
    if ltb p.size (start + 4) then ok invalid_pgno else int_field32 p start

unfoldable pub node_get_data_size_raw : Bytes → ℕ → Run ℕ
unfolding page_entry_offset_direct field32
node_get_data_size_raw p idx = do
  off ← page_entry_offset_direct p idx
  if off == 0 || ltb p.size (off + 4) then ok 0 else field32 p off
