-- ===== src/Txn/Get.antt =====
-- Looking up a key in a tree: txn.go, `searchPageRawExact`, `directGetReadOnly` and
-- `directGetReadOnlyFast`.
use gdbx.Base.{
  ℕ, zero, suc, ◌+◌, ◌-◌, ◌==◌, if◌then◌else◌, Bool, true, false, List, length, Option, none, some,
  Run, ok, ◌>>=◌,
}
use gdbx.Bytes.{Bytes}
use gdbx.Page.Header.{flag_set, page_is_leaf_direct, page_is_branch_direct}
use gdbx.Page.Entries.{page_num_entries_direct}
use gdbx.Node.Fields.{node_big}
use gdbx.Node.Raw.{node_get_data_size_raw, node_get_overflow_pgno_raw}
use gdbx.Node.Unchecked.{
  node_get_key_unchecked, node_get_data_unchecked, node_get_child_pgno_unchecked,
  node_get_flags_unchecked,
}
use gdbx.Search.{Outcome, hit, gap, spent, search_loop}
use gdbx.Search.Order.{Side}
use gdbx.Txn.Mapping.{Got, not_found, ReadTxn, page_slice, get_large_data}
use gdbx.Txn.Duplicates.{first_value}

-- The index and whether its key is the one sought; `none` is a loop without fuel.
abbrev pub leaf_exact : Outcome → Option (ℕ × Bool)
leaf_exact (hit m) = some (m, true)
leaf_exact (gap low) = some (low, false)
leaf_exact spent = none

abbrev pub branch_exact : Outcome → Option (ℕ × Bool)
branch_exact (hit m) = some (m, true)
branch_exact (gap low) = some (low - 1, false)
branch_exact spent = none

-- The value of a node: what `directGetReadOnly` does at a key that is found.
unfoldable pub node_value : ReadTxn → Bytes → ℕ → Run Got
node_value t d idx = do
  flags ← node_get_flags_unchecked d idx
  if flag_set flags node_big
      then (do
        size ← node_get_data_size_raw d idx
        pgno ← node_get_overflow_pgno_raw d idx
        get_large_data t pgno size)
      else do bytes ← node_get_data_unchecked d idx; first_value t flags (length bytes) bytes

module _ (cmp : List ℕ → List ℕ → Side) where
  -- `cmp(key, nodeKey)`
  unfoldable pub probe : Bytes → List ℕ → ℕ → Run Side
  probe d key i = do node_key ← node_get_key_unchecked d i; ok (cmp key node_key)

  unfoldable pub search_page_raw_exact : Bytes → List ℕ → Run (Option (ℕ × Bool))
  search_page_raw_exact d key = do
    n ← page_num_entries_direct d
    if n == 0 then ok (some (0, false)) else do
      branch ← page_is_branch_direct d
      if branch
          then (if n == 1
              then ok (some (0, false))
              else search_loop (probe d key) (n + 1) 1 n >>= λ o. ok (branch_exact o))
          else search_loop (probe d key) (n + 1) 0 n >>= λ o. ok (leaf_exact o)

  -- The loop down the tree, on fuel; `none` is a loop without fuel.
  unfoldable pub direct_get_read_only : ReadTxn → ℕ → ℕ → List ℕ → Run (Option Got)
  direct_get_read_only t zero pgno key = ok none
  direct_get_read_only t (suc fuel) pgno key = page_slice t.mmap_data t.page_bytes pgno >>= λ d.
      search_page_raw_exact d key >>= λ found. elim found [
        | none ↦ ok none
        | some (idx, exact) ↦ page_is_leaf_direct d >>= λ leaf. elim leaf [
          | true ↦ if exact then (node_value t d idx >>= λ g. ok (some g)) else ok (some not_found)
          | false ↦
              node_get_child_pgno_unchecked d idx >>= λ child. direct_get_read_only t fuel child key
        ]
      ]
