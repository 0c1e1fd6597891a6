-- ===== src/Page/CompactTo.antt =====
-- Copying a page without its holes to another: page.go, `compactTo`.
use gdbx.Base.{ℕ, zero, suc, ◌+◌, ◌%◌, ◌&&◌, ltb, leb, if◌then◌else◌, Run, ok, ◌>>=◌}
use gdbx.Bytes.{Bytes, slice, store16, store32, store64}
use gdbx.Page.Header.{page_header_size, add16, sub16, header, deref}
use gdbx.Page.Entries.{num_entries, entry_offset, calc_node_size}
use gdbx.Page.Edit.{insert_entry}

unfoldable pub copy_entry : Bytes → ℕ → ℕ → ℕ → Bytes → (ℕ → ℕ) → Run Bytes
unfolding slice insert_entry
copy_entry p i off size dst pooled =
    if ltb 0 size && leb (off + size) p.size
    then (do
      bytes ← slice p off (add16 off (size % 65536))
      (q, _) ← insert_entry dst i bytes pooled
      ok q)
    else ok dst

-- Each node whose bytes stand in the page is inserted at its index in `dst`; what
-- `insertEntry` returns is dropped.
unfoldable pub copy_entries : Bytes → ℕ → ℕ → Bytes → (ℕ → ℕ) → Run Bytes
unfolding entry_offset calc_node_size copy_entry
copy_entries p i zero dst pooled = ok dst
copy_entries p i (suc n) dst pooled = do
  off ← entry_offset p i
  size ← calc_node_size p i
  dst' ← copy_entry p i off size dst pooled
  copy_entries p (i + 1) n dst' pooled

unfoldable pub compact_to : Bytes → Bytes → ℕ → (ℕ → ℕ) → Run Bytes
unfolding header store16 store32 store64 num_entries copy_entries
compact_to p dst page_size pooled = do
  _ ← deref (header dst)
  h ← deref (header p)
  d0 ← store32 dst 16 h.page_no
  d1 ← store16 d0 10 h.flags
  d2 ← store64 d1 0 h.txnid
  d3 ← store16 d2 8 h.dupfix_ksize
  d4 ← store16 d3 12 0
  d5 ← store16 d4 14 (sub16 page_size page_header_size)
  copy_entries p 0 (num_entries p) d5 pooled
