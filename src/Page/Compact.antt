-- ===== src/Page/Compact.antt =====
-- Repacking a page: page.go, `compact` and `compactWithBuf`. The temporary storage is the gap of
-- the page itself where that is large enough; otherwise it is a buffer of its own.
use gdbx.Base.{
  ℕ, zero, suc, ◌+◌, ◌-◌, ◌*◌, ◌%◌, Bool, true, false, ◌&&◌, leb, ◌==◌, if◌then◌else◌, List, [],
  ◌∷◌, Run, ok, ◌>>=◌, in_range,
}
use gdbx.Bytes.{Bytes, slice, copy_list, store16}
use gdbx.Page.Header.{page_header_size, add16, sub16, header, deref}
use gdbx.Page.Entries.{num_entries_fast, calc_node_size_fast, entry_offset_fast}

-- The sizes of `n` nodes from index `i` on, as `uint16`.
unfoldable pub node_sizes : Bytes → ℕ → ℕ → Run (List ℕ)
node_sizes p i zero = ok []
node_sizes p i (suc n) = do
  s ← calc_node_size_fast p i
  rest ← node_sizes p (i + 1) n
  ok ((s % 65536) ∷ rest)

unfoldable pub sum16 : List ℕ → ℕ
sum16 [] = 0
sum16 (s ∷ rest) = add16 s (sum16 rest)

-- The page and the temporary storage: the bytes of the page from `base` on, or `temp`.
pub record Repack : Type 0 where
  pub page : Bytes
  pub temp : Bytes
  pub in_place : Bool
  pub base : ℕ

-- `copy(tempBuf[a:b], bytes)`, for bytes of length b - a
unfoldable pub temp_write : Repack → ℕ → ℕ → List ℕ → Run Repack
unfolding copy_list
temp_write r a b bytes = do
  _ ← in_range (leb a b && leb b r.temp.size)
  if r.in_place
      then (do page' ← copy_list r.page (r.base + a) bytes; ok (record r { page = page' }))
      else (do temp' ← copy_list r.temp a bytes; ok (record r { temp = temp' }))

-- `tempBuf[a:b]`
unfoldable pub temp_read : Repack → ℕ → ℕ → Run (List ℕ)
unfolding slice
temp_read r a b = do
  _ ← in_range (leb a b && leb b r.temp.size)
  if r.in_place then slice r.page (r.base + a) (r.base + b) else slice r.temp a b

-- The loop that copies each node to the temporary storage.
unfoldable pub gather : Repack → ℕ → ℕ → List ℕ → Run Repack
unfolding entry_offset_fast slice temp_write
gather r i pos [] = ok r
gather r i pos (s ∷ rest) = do
  src ← entry_offset_fast r.page i
  bytes ← slice r.page src (add16 src s)
  r' ← temp_write r pos (add16 pos s) bytes
  gather r' (i + 1) (add16 pos s) rest

-- The loop that writes the nodes back from the end of the page down, and their offsets.
unfoldable pub scatter : Repack → ℕ → ℕ → ℕ → List ℕ → Run (Repack × ℕ)
unfolding slice temp_read copy_list store16
scatter r i pos write_pos [] = ok (r, write_pos)
scatter r i pos write_pos (s ∷ rest) = do
  let down = sub16 write_pos s
  _ ← in_range (leb down (add16 down s) && leb (add16 down s) r.page.size)
  bytes ← temp_read r pos (add16 pos s)
  page1 ← copy_list r.page down bytes
  page2 ← store16 page1 (page_header_size + i * 2) (sub16 down page_header_size)
  scatter (record r { page = page2 }) (i + 1) (add16 pos s) down rest

-- `tempBuf`, once the sizes are known. Its length is `temp.size`; in the gap its bytes are the page's.
unfoldable pub choose_temp : Bytes → Bytes → (ℕ → ℕ) → ℕ → ℕ → ℕ → Run Repack
unfolding slice
choose_temp p scratch pooled table_end data_start total =
    if leb total (sub16 data_start table_end)
    then (do
      _ ← slice p table_end data_start
      ok (record {
        page = p;
        temp = record { size = data_start - table_end; at = λ i. p.at (table_end + i) };
        in_place = true;
        base = table_end;
      }))
    else ok (record {
      page = p;
      temp = record { size = total; at = if leb total scratch.size then scratch.at else pooled };
      in_place = false;
      base = 0;
    })

-- The page and the number of bytes reclaimed. `scratch` is the caller's buffer (empty for nil), and
-- `pooled` what a buffer of the pool holds.
unfoldable pub compact_with_buf : Bytes → Bytes → (ℕ → ℕ) → Run (Bytes × ℕ)
unfolding header num_entries_fast node_sizes sum16 choose_temp gather scatter store16
compact_with_buf p scratch pooled = do
  h ← deref (header p)
  n ← num_entries_fast p
  let page_size = p.size % 65536
  if n == 0
      then (do
        let upper = sub16 page_size page_header_size
        p' ← store16 p 14 upper
        ok (p', sub16 upper h.upper))
      else do
        sizes ← node_sizes p 0 n
        let total = sum16 sizes
        if h.upper == sub16 (sub16 page_size page_header_size) total then ok (p, 0) else do
          r0 ←
              choose_temp p scratch pooled ((page_header_size + n * 2) % 65536)
                (add16 h.upper page_header_size) total
          r1 ← gather r0 0 0 sizes
          (r2, write_pos) ← scatter r1 0 0 page_size sizes
          old ← deref (header r2.page)
          let upper = sub16 write_pos page_header_size
          p' ← store16 r2.page 14 upper
          ok (p', sub16 upper old.upper)

-- `compact()` passes no buffer.
unfoldable pub compact : Bytes → (ℕ → ℕ) → Run (Bytes × ℕ)
unfolding compact_with_buf
compact p pooled = compact_with_buf p (record { size = 0; at = λ _. 0 }) pooled
