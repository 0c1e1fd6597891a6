-- ===== src/Node/Fast.antt =====
-- The accessors of node.go on a `*page` that check nothing: `nodeGet…Fast`.
use gdbx.Base.{ℕ, ◌+◌, ◌%◌, List, Run, ok, ◌>>=◌}
use gdbx.Bytes.{Bytes, load8, slice}
use gdbx.Page.Header.{add16}
use gdbx.Page.Entries.{entry_offset_fast}
use gdbx.Node.Fields.{node_size, field16, field32}

-- `end` is a `uint16`.
unfoldable pub node_get_key_fast : Bytes → ℕ → Run (List ℕ)
unfolding entry_offset_fast field16 slice
node_get_key_fast p idx = do
  off ← entry_offset_fast p idx
  key_size ← field16 p off 6
  slice p (add16 off node_size) ((off + node_size + key_size) % 65536)

unfoldable pub node_get_data_fast : Bytes → ℕ → Run (List ℕ)
unfolding entry_offset_fast field16 field32 slice
node_get_data_fast p idx = do
  off ← entry_offset_fast p idx
  data_size ← field32 p off
  key_size ← field16 p off 6
  slice p (off + node_size + key_size) (off + node_size + key_size + data_size)

unfoldable pub node_get_child_pgno_fast : Bytes → ℕ → Run ℕ
unfolding entry_offset_fast field32
node_get_child_pgno_fast p idx = do off ← entry_offset_fast p idx; field32 p off

unfoldable pub node_get_flags_fast : Bytes → ℕ → Run ℕ
unfolding entry_offset_fast load8
node_get_flags_fast p idx = do off ← entry_offset_fast p idx; load8 p (add16 off 4)

-- The bounds of the key are `uint16`, those of the data `int`.
unfoldable pub node_get_key_flags_data_fast : Bytes → ℕ → Run (List ℕ × ℕ × List ℕ)
unfolding entry_offset_fast field16 field32 load8 slice
node_get_key_flags_data_fast p idx = do
  off ← entry_offset_fast p idx
  data_size ← field32 p off
  flags ← load8 p (add16 off 4)
  key_size ← field16 p off 6
  key ← slice p (add16 off node_size) ((off + node_size + key_size) % 65536)
  content ← slice p (off + node_size + key_size) (off + node_size + key_size + data_size)
  ok (key, flags, content)
