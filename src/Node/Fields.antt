-- ===== src/Node/Fields.antt =====
-- Reads at an offset within a node, as node.go spells them out byte by byte: the offset is a
-- `uint16`, so the index of each byte wraps.
use gdbx.Base.{ℕ, ◌+◌, ◌*◌, Run, ok, ◌>>=◌}
use gdbx.Bytes.{Bytes, load8}
use gdbx.Page.Header.{add16}

abbrev pub node_size : ℕ
node_size = 8

abbrev pub node_big : ℕ
node_big = 0x01

abbrev pub node_tree : ℕ
node_tree = 0x02

abbrev pub node_dup : ℕ
node_dup = 0x04

-- `uint16(d[off+k]) | uint16(d[off+k+1])<<8`
unfoldable pub field16 : Bytes → ℕ → ℕ → Run ℕ
unfolding load8
field16 d off k = do a ← load8 d (add16 off k); b ← load8 d (add16 off (k + 1)); ok (a + 256 * b)

-- `uint32(d[off]) | … | uint32(d[off+3])<<24`
unfoldable pub field32 : Bytes → ℕ → Run ℕ
unfolding load8
field32 d off = do
  a ← load8 d off
  b ← load8 d (add16 off 1)
  c ← load8 d (add16 off 2)
  e ← load8 d (add16 off 3)
  ok (a + 256 * b + 65536 * c + 16777216 * e)

-- The same with `int` offsets, where nothing wraps.
unfoldable pub int_field32 : Bytes → ℕ → Run ℕ
unfolding load8
int_field32 d off = do
  a ← load8 d off
  b ← load8 d (off + 1)
  c ← load8 d (off + 2)
  e ← load8 d (off + 3)
  ok (a + 256 * b + 65536 * c + 16777216 * e)
