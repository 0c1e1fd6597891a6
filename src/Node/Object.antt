-- ===== src/Node/Object.antt =====
-- The `node` struct of node.go: the bytes of a page from the node's offset on.
use gdbx.Base.{
  ℕ, ◌+◌, ◌-◌, ◌/◌, Bool, ◌||◌, ltb, leb, ◌==◌, if◌then◌else◌, List, Option, none, some, Run, ok,
  ◌>>=◌,
}
use gdbx.Bytes.{Bytes, word16, word32, slice}
use gdbx.Page.Header.{flag_set, deref, invalid_pgno, page_header_size, add16}
use gdbx.Page.Entries.{entry_offset}
use gdbx.Node.Fields.{node_size, node_big, node_tree, node_dup, int_field32}

pub record NodeHeader : Type 0 where
  pub header_data_size : ℕ
  pub header_flags : ℕ
  pub extra : ℕ
  pub header_key_size : ℕ

pub record Node : Type 0 where
  pub bytes : Bytes
  pub offset : ℕ

-- `d[off:]`
abbrev pub suffix : Bytes → ℕ → Bytes
suffix d off = record { size = d.size - off; at = λ i. d.at (off + i) }

-- `none` is the nil pointer.
unfoldable pub node_from_page : Bytes → ℕ → Run (Option Node)
unfolding entry_offset
node_from_page p idx = do
  off ← entry_offset p idx
  ok (
      if off == 0 || leb p.size off
      then none
      else if leb (off + node_size) p.size
      then some (record { bytes = suffix p off; offset = off })
      else none)

unfoldable pub node_from_bytes : Bytes → Option Node
node_from_bytes d = if ltb d.size node_size then none else some (record { bytes = d; offset = 0 })

unfoldable pub node_header : Node → Option NodeHeader
node_header n =
    if ltb n.bytes.size node_size
    then none
    else some (record {
      header_data_size = word32 n.bytes.at 0;
      header_flags = n.bytes.at 4;
      extra = n.bytes.at 5;
      header_key_size = word16 n.bytes.at 6;
    })

unfoldable pub key_size : Node → Run ℕ
unfolding node_header
key_size n = do h ← deref (node_header n); ok h.header_key_size

unfoldable pub data_size : Node → Run ℕ
unfolding node_header
data_size n = do h ← deref (node_header n); ok h.header_data_size

unfoldable pub child_pgno : Node → Run ℕ
unfolding node_header
child_pgno n = do h ← deref (node_header n); ok h.header_data_size

unfoldable pub node_flags : Node → Run ℕ
unfolding node_header
node_flags n = do h ← deref (node_header n); ok h.header_flags

unfoldable pub is_big : Node → Run Bool
unfolding node_header
is_big n = do h ← deref (node_header n); ok (flag_set h.header_flags node_big)

unfoldable pub is_tree : Node → Run Bool
unfolding node_header
is_tree n = do h ← deref (node_header n); ok (flag_set h.header_flags node_tree)

unfoldable pub is_dup : Node → Run Bool
unfolding node_header
is_dup n = do h ← deref (node_header n); ok (flag_set h.header_flags node_dup)

-- The slice that is returned, or nil.
abbrev pub some_slice : Bytes → ℕ → ℕ → Run (Option (List ℕ))
some_slice d a b = do s ← slice d a b; ok (some s)

-- `nodeSize+h.KeySize` is a `uint16`.
unfoldable pub key : Node → Run (Option (List ℕ))
unfolding node_header slice
key n = elim (node_header n) [
  | none ↦ ok none
  | some h ↦
      if ltb n.bytes.size (node_size + h.header_key_size)
      then ok none
      else some_slice n.bytes node_size (add16 node_size h.header_key_size)
]

unfoldable pub node_data : Node → Run (Option (List ℕ))
unfolding node_header slice
node_data n = elim (node_header n) [
  | none ↦ ok none
  | some h ↦
      let off = node_size + h.header_key_size in
      if flag_set h.header_flags node_big
      then (if ltb n.bytes.size (off + 4) then ok none else some_slice n.bytes off (off + 4))
      else if ltb n.bytes.size (off + h.header_data_size)
      then ok none
      else some_slice n.bytes off (off + h.header_data_size)
]

unfoldable pub overflow_pgno : Node → Run ℕ
unfolding node_header is_big int_field32
overflow_pgno n = do
  big ← is_big n
  h ← deref (node_header n)
  let off = node_size + h.header_key_size
  if big
      then if ltb n.bytes.size (off + 4) then ok invalid_pgno else int_field32 n.bytes off
      else ok invalid_pgno

unfoldable pub total_size : Node → ℕ
unfolding node_header
total_size n = elim (node_header n) [
  | none ↦ 0
  | some h ↦
      if flag_set h.header_flags node_big
      then node_size + h.header_key_size + 4
      else node_size + h.header_key_size + h.header_data_size
]

unfoldable pub node_calc_size : ℕ → ℕ → Bool → ℕ
node_calc_size key_len data_len big =
    if big then node_size + key_len + 4 else node_size + key_len + data_len

-- Both are called with a page size of at least 256, where the differences are not negative.
unfoldable pub node_max_key_size : ℕ → ℕ
node_max_key_size page_size = page_size / 2 - node_size - 2

unfoldable pub node_max_data_size : ℕ → ℕ
node_max_data_size page_size = (page_size - page_header_size - 4) / 2 - node_size - 1
