-- ===== src/Node/Direct.antt =====
-- The accessors of node.go on a `*page` that check their bounds: `nodeGet…Direct`.
use gdbx.Base.{ℕ, ◌+◌, ◌%◌, ◌||◌, ltb, ◌==◌, if◌then◌else◌, List, Option, none, Run, ok, ◌>>=◌}
use gdbx.Bytes.{Bytes, load8, slice}
use gdbx.Page.Header.{flag_set, invalid_pgno, add16}
use gdbx.Page.Entries.{entry_offset}
use gdbx.Node.Fields.{node_size, node_big, field16, field32, int_field32}
use gdbx.Node.Object.{some_slice}

-- `end` and the start of the slice are `uint16`.
unfoldable pub node_get_key_direct : Bytes → ℕ → Run (Option (List ℕ))
unfolding entry_offset field16 slice
node_get_key_direct p idx = do
  off ← entry_offset p idx
  if off == 0 || ltb p.size (off + node_size) then ok none else do
    key_size ← field16 p off 6
    let end = (off + node_size + key_size) % 65536
    if ltb p.size end then ok none else some_slice p (add16 off node_size) end

-- A big node has its data elsewhere: nil.
unfoldable pub node_get_data_direct : Bytes → ℕ → Run (Option (List ℕ))
unfolding entry_offset field16 field32 load8 slice
node_get_data_direct p idx = do
  off ← entry_offset p idx
  if off == 0 || ltb p.size (off + node_size) then ok none else do
    data_size ← field32 p off
    flags ← load8 p (add16 off 4)
    key_size ← field16 p off 6
    let start = off + node_size + key_size
    if flag_set flags node_big || ltb p.size (start + data_size)
        then ok none
        else some_slice p start (start + data_size)

unfoldable pub node_get_child_pgno_direct : Bytes → ℕ → Run ℕ
unfolding entry_offset field32
node_get_child_pgno_direct p idx = do
  off ← entry_offset p idx
  if off == 0 || ltb p.size (off + 4) then ok invalid_pgno else field32 p off

unfoldable pub node_get_flags_direct : Bytes → ℕ → Run ℕ
unfolding entry_offset load8
node_get_flags_direct p idx = do
  off ← entry_offset p idx
  if off == 0 || ltb p.size (off + 5) then ok 0 else load8 p (add16 off 4)

unfoldable pub node_get_overflow_pgno_direct : Bytes → ℕ → Run ℕ
unfolding entry_offset field16 int_field32
node_get_overflow_pgno_direct p idx = do
  off ← entry_offset p idx
  if off == 0 || ltb p.size (off + node_size) then ok invalid_pgno else do
    key_size ← field16 p off 6
    let start = off + node_size + key_size
    if ltb p.size (start + 4) then ok invalid_pgno else int_field32 p start

unfoldable pub node_get_data_size_direct : Bytes → ℕ → Run ℕ
unfolding entry_offset field32
node_get_data_size_direct p idx = do
  off ← entry_offset p idx
  if off == 0 || ltb p.size (off + 4) then ok 0 else field32 p off
