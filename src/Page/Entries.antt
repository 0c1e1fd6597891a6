-- ===== src/Page/Entries.antt =====
-- The entry table of a page: page.go, `numEntries`, `entryOffset`, `freeSpace` and their variants.
-- An index is a natural number, so the guard `idx < 0` has no counterpart.
use gdbx.Base.{ℕ, ◌+◌, ◌*◌, ◌/◌, ltb, leb, if◌then◌else◌, none, some, Run, ok, ◌>>=◌, ℤ, pos, sub_ℕ}
use gdbx.Bytes.{Bytes, load16, load32, load8}
use gdbx.Page.Header.{page_header_size, add16, header, is_branch_fast, flag_set}

unfoldable pub num_entries : Bytes → ℕ
unfolding header
num_entries p = elim (header p) [ none ↦ 0 | some h ↦ h.lower / 2 ]

-- A stored offset is relative to the end of the header.
unfoldable pub entry_offset : Bytes → ℕ → Run ℕ
unfolding num_entries load16
entry_offset p idx =
    if leb (num_entries p) idx
    then ok 0
    else do s ← load16 p (page_header_size + idx * 2); ok (add16 s page_header_size)

unfoldable pub free_space : Bytes → ℤ
unfolding header
free_space p = elim (header p) [ none ↦ pos 0 | some h ↦ sub_ℕ h.upper h.lower ]

unfoldable pub page_num_entries_direct : Bytes → Run ℕ
unfolding load16
page_num_entries_direct d =
    if ltb d.size page_header_size then ok 0 else do l ← load16 d 12; ok (l / 2)

unfoldable pub page_entry_offset_direct : Bytes → ℕ → Run ℕ
unfolding page_num_entries_direct load16
page_entry_offset_direct d idx = do
  n ← page_num_entries_direct d
  if leb n idx
      then ok 0
      else do s ← load16 d (page_header_size + idx * 2); ok (add16 s page_header_size)

unfoldable pub page_entry_offset_unchecked : Bytes → ℕ → Run ℕ
unfolding load16
page_entry_offset_unchecked d idx = do
  s ← load16 d (page_header_size + idx * 2)
  ok (add16 s page_header_size)

unfoldable pub entry_offset_fast : Bytes → ℕ → Run ℕ
unfolding load16
entry_offset_fast p idx = do
  s ← load16 p (page_header_size + idx * 2)
  ok (add16 s page_header_size)

unfoldable pub num_entries_fast : Bytes → Run ℕ
unfolding load16
num_entries_fast p = do l ← load16 p 12; ok (l / 2)

-- On a branch page the first field of a node is the child's page number, not a size.
unfoldable pub calc_node_size_fast : Bytes → ℕ → Run ℕ
unfolding entry_offset_fast load32 load16 load8 is_branch_fast
calc_node_size_fast p idx = do
  off ← entry_offset_fast p idx
  dsize ← load32 p off
  flags ← load8 p (add16 off 4)
  ksize ← load16 p (add16 off 6)
  branch ← is_branch_fast p
  ok (
      if branch
      then 8 + ksize
      else if flag_set flags 0x01
      then 8 + ksize + 4
      else 8 + ksize + dsize)

unfoldable pub calc_node_size : Bytes → ℕ → Run ℕ
unfolding num_entries_fast calc_node_size_fast
calc_node_size p idx = do
  n ← num_entries_fast p
  if leb n idx then ok 0 else calc_node_size_fast p idx
