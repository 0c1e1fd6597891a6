-- ===== src/Txn/GetFast.antt =====
-- The lookup of read-only transactions with the default comparison: txn.go, `directGetReadOnlyFast`.
-- It reads the mapping by pointers; a read that ends outside the mapping is a panic here.
use gdbx.Base.{
  ℕ, zero, suc, ◌+◌, ◌-◌, ◌*◌, ◌/◌, leb, ◌==◌, if◌then◌else◌, true, false, List, Option, none, some,
  Run, ok, ◌>>=◌,
}
use gdbx.Bytes.{Bytes, slice, load8, load16, load32}
use gdbx.Page.Header.{page_leaf, flag_set}
use gdbx.Node.Fields.{node_big}
use gdbx.Search.{Outcome, hit, gap, spent, search_loop, get_key_and_compare}
use gdbx.Search.Order.{Side, less, same, more}
use gdbx.Txn.Mapping.{Got, not_found, ReadTxn, get_large_data}
use gdbx.Txn.Duplicates.{first_value}

-- The mapping from `base` on.
abbrev pub mapped_from : ReadTxn → ℕ → Bytes
mapped_from t pgno = record {
  size = t.mmap_data.size - pgno * t.page_bytes;
  at = λ i. t.mmap_data.at (pgno * t.page_bytes + i);
}

-- The value of node `idx`, behind the label `done`.
unfoldable pub fast_value : ReadTxn → Bytes → ℕ → Run Got
fast_value t d idx = do
  stored ← load16 d (20 + idx * 2)
  flags ← load8 d (stored + 20 + 4)
  size ← load32 d (stored + 20)
  key_size ← load16 d (stored + 20 + 6)
  if flag_set flags node_big
      then (do pgno ← load32 d (stored + 20 + 8 + key_size); get_large_data t pgno size)
      else do
        bytes ← slice d (stored + 20 + 8 + key_size) (stored + 20 + 8 + key_size + size)
        first_value t flags size bytes

-- The child that the loop on a branch page ends at: below the first separator it is compared again.
unfoldable pub fast_child : (ℕ → Run Side) → Outcome → Run (Option ℕ)
fast_child compared (hit m) = ok (some m)
fast_child compared (gap low) =
    if low == 1
    then compared 1 >>= (λ c. elim c [
      | less ↦ ok (some 0)
      | same ↦ ok (some (low - 1))
      | more ↦ ok (some (low - 1))
    ])
    else ok (some (low - 1))
fast_child compared spent = ok none

unfoldable pub fast_branch : Bytes → ℕ → List ℕ → Run (Option ℕ)
fast_branch d n key =
    if leb n 1
    then ok (some 0)
    else search_loop (λ i. get_key_and_compare d i key) (n + 1) 1 n >>= λ o.
        fast_child (λ i. get_key_and_compare d i key) o

-- What the loop on a leaf page leads to.
unfoldable pub fast_found : ReadTxn → Bytes → Outcome → Run (Option Got)
fast_found t d (hit m) = fast_value t d m >>= λ g. ok (some g)
fast_found t d (gap low) = ok (some not_found)
fast_found t d spent = ok none

unfoldable pub fast_leaf : ReadTxn → Bytes → ℕ → List ℕ → Run (Option Got)
fast_leaf t d n key =
    if n == 0
    then ok (some not_found)
    else search_loop (λ i. get_key_and_compare d i key) (n + 1) 0 n >>= λ o. fast_found t d o

-- The loop down the tree, on fuel; `none` is a loop without fuel.
unfoldable pub direct_get_read_only_fast : ReadTxn → ℕ → ℕ → List ℕ → Run (Option Got)
direct_get_read_only_fast t zero pgno key = ok none
direct_get_read_only_fast t (suc fuel) pgno key =
    let d = mapped_from t pgno in
    load16 d 10 >>= λ flags. load16 d 12 >>= λ lower. elim (flag_set flags page_leaf) [
      | true ↦ fast_leaf t d (lower / 2) key
      | false ↦ fast_branch d (lower / 2) key >>= λ found. elim found [
        | none ↦ ok none
        | some idx ↦ load16 d (20 + idx * 2) >>= λ stored.
            load32 d (stored + 20) >>= λ child. direct_get_read_only_fast t fuel child key
      ]
    ]
