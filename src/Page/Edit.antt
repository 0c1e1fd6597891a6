-- ===== src/Page/Edit.antt =====
-- Changing the entries of a page: page.go, `insertEntry`, `removeEntry`, `removeEntriesFrom`,
-- `updateEntry`. A method returns the page as it leaves it, and its result.
pub mod Place
pub mod Insert
pub mod Remove
pub mod Truncate
pub mod Relocate
pub mod RoundTrip
use gdbx.Base.{
  ℕ, zero, suc, ◌+◌, ◌-◌, ◌*◌, ◌/◌, ◌%◌, Bool, true, false, ◌||◌, ltb, leb, ◌==◌, if◌then◌else◌,
  List, Run, ok, ◌>>=◌, length, lt_ℕ, sub_ℕ,
}
use gdbx.Bytes.{Bytes, load16, store16, copy_list, copy_within}
use gdbx.Page.Header.{page_header_size, add16, sub16, header, deref}
use gdbx.Page.Entries.{num_entries, free_space, entry_offset, calc_node_size, calc_node_size_fast}
use gdbx.Page.Compact.{compact_with_buf}

-- The part of `insertEntryWithBuf` behind the test for space.
unfoldable pub place_entry : Bytes → ℕ → ℕ → List ℕ → Run Bytes
unfolding header
place_entry p n idx node_data = do
  h ← deref (header p)
  let new_upper = sub16 h.upper (length node_data % 65536)
  p1 ← store16 p 14 new_upper
  p2 ← copy_list p1 (add16 new_upper page_header_size) node_data
  let src = page_header_size + idx * 2
  p3 ← (if ltb idx n then copy_within p2 (src + 2) src ((n - idx) * 2) else ok p2)
  p4 ← store16 p3 (page_header_size + idx * 2) new_upper
  lower ← load16 p4 12
  store16 p4 12 (add16 lower 2)

unfoldable pub insert_entry_with_buf : Bytes → ℕ → List ℕ → Bytes → (ℕ → ℕ) → Run (Bytes × Bool)
insert_entry_with_buf p idx node_data scratch pooled =
    let n = num_entries p in
    let required = 2 + length node_data in
    if ltb n idx
    then ok (p, false)
    else if lt_ℕ (free_space p) required
    then (do
      (p', reclaimed) ← compact_with_buf p scratch pooled
      if reclaimed == 0 || lt_ℕ (free_space p') required
          then ok (p', false)
          else (do q ← place_entry p' n idx node_data; ok (q, true)))
    else (do q ← place_entry p n idx node_data; ok (q, true))

-- `insertEntry` passes no buffer.
unfoldable pub insert_entry : Bytes → ℕ → List ℕ → (ℕ → ℕ) → Run (Bytes × Bool)
unfolding insert_entry_with_buf
insert_entry p idx node_data pooled =
    insert_entry_with_buf p idx node_data (record { size = 0; at = λ _. 0 }) pooled

-- `h.Lower -= by`
unfoldable pub shrink_table : Bytes → ℕ → Run Bytes
shrink_table p by = do lower ← load16 p 12; store16 p 12 (sub16 lower by)

unfoldable pub remove_entry : Bytes → ℕ → Run (Bytes × Bool)
remove_entry p idx =
    let n = num_entries p in
    if leb n idx then ok (p, false) else do
      let dst = page_header_size + idx * 2
      p1 ← (if ltb idx (n - 1) then copy_within p dst (dst + 2) ((n - 1 - idx) * 2) else ok p)
      p2 ← shrink_table p1 2
      ok (p2, true)

unfoldable pub remove_entries_from : Bytes → ℕ → Run Bytes
remove_entries_from p start =
    let n = num_entries p in if leb n start then ok p else shrink_table p ((n - start) * 2 % 65536)

-- The new bytes go to the free space, and the entry is pointed at them.
unfoldable pub relocate_entry : Bytes → ℕ → List ℕ → Run (Bytes × Bool)
unfolding header
relocate_entry p idx node_data = do
  h ← deref (header p)
  if ltb h.upper (h.lower + length node_data) then ok (p, false) else do
    let new_upper = h.upper - length node_data
    p1 ← store16 p 14 new_upper
    p2 ← copy_list p1 (add16 new_upper page_header_size) node_data
    p3 ← store16 p2 (page_header_size + idx * 2) new_upper
    ok (p3, true)

unfoldable pub update_entry : Bytes → ℕ → List ℕ → Run (Bytes × Bool)
update_entry p idx node_data = if leb (num_entries p) idx then ok (p, false) else do
  old_size ← calc_node_size p idx
  if leb (length node_data) old_size
      then (do off ← entry_offset p idx; p' ← copy_list p off node_data; ok (p', true))
      else if lt_ℕ (free_space p) (length node_data - old_size)
      then ok (p, false)
      else relocate_entry p idx node_data
