-- ===== src/Txn/Mapping.antt =====
-- The pages that a read-only transaction sees: txn.go, `getPage` and `getLargeData`; env.go,
-- `getPageData`. The map of pages that `getPage` keeps spares it a struct, and is left out.
use gdbx.Base.{
  ℕ, zero, suc, ◌+◌, ◌-◌, ◌*◌, ◌/◌, ◌%◌, ◌^◌, ltb, leb, if◌then◌else◌, List, [], ◌++◌, take, drop,
  Option, none, some, Run, ok, ◌>>=◌,
}
use gdbx.Bytes.{Bytes, slice}
use gdbx.Page.Header.{page_header_size}

-- What a lookup returns: the bytes, or the error.
pub data Got : Type 0 where
  value : List ℕ → Got
  not_found corrupted page_missing invalid : Got

-- `mmap_data` is the mapping that was current when the transaction began, `env_map` the current one
-- (`dataMap`, which may be nil).
pub record ReadTxn : Type 0 where
  pub mmap_data : Bytes
  pub page_bytes : ℕ
  pub env_map : Option Bytes

-- `mmapData[offset : offset+pageSize]`
unfoldable pub page_slice : Bytes → ℕ → ℕ → Run Bytes
unfolding slice
page_slice m page_bytes pgno = do
  _ ← slice m (pgno * page_bytes) (pgno * page_bytes + page_bytes)
  ok (record { size = page_bytes; at = λ i. m.at (pgno * page_bytes + i) })

unfoldable pub get_page_data : ReadTxn → ℕ → Run Got
unfolding slice
get_page_data t pgno = elim (t.env_map) [
  | none ↦ ok invalid
  | some m ↦
      let offset = pgno * t.page_bytes in
      if ltb m.size (offset + t.page_bytes)
      then ok page_missing
      else do bytes ← slice m offset (offset + t.page_bytes); ok (value bytes)
]

-- The loop over the overflow pages, `rounds` pages from the i-th on; `so_far` is what is appended so far.
unfoldable pub gather_large : ReadTxn → ℕ → ℕ → ℕ → List ℕ → Run Got
gather_large t pgno i zero so_far = ok (value so_far)
gather_large t pgno i (suc rounds) so_far = get_page_data t ((pgno + i) % 2 ^ 32) >>= λ r. elim r [
  | value page ↦
      gather_large t pgno (i + 1) rounds
        (so_far ++ (if leb i 0 then drop page_header_size page else page))
  | not_found ↦ ok not_found
  | corrupted ↦ ok corrupted
  | page_missing ↦ ok page_missing
  | invalid ↦ ok invalid
]

-- `numPages`
unfoldable pub large_pages : ℕ → ℕ → ℕ
large_pages page_bytes size =
    let first = page_bytes - page_header_size in
    if leb size first then 1 else 1 + (size - first + page_bytes - 1) / page_bytes

unfoldable pub get_large_data : ReadTxn → ℕ → ℕ → Run Got
unfolding slice
get_large_data t pgno size =
    let start = pgno * t.page_bytes + page_header_size in
    if leb (start + size) t.mmap_data.size
    then (do bytes ← slice t.mmap_data start (start + size); ok (value bytes))
    else gather_large t pgno 0 (large_pages t.page_bytes size) [] >>= λ g. elim g [
      | value bytes ↦ ok (value (take size bytes))
      | not_found ↦ ok not_found
      | corrupted ↦ ok corrupted
      | page_missing ↦ ok page_missing
      | invalid ↦ ok invalid
    ]
