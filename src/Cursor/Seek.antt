-- ===== src/Cursor/Seek.antt =====
-- Positioning a cursor at a key: cursor.go, `search`, `searchPage`, `searchPageAsm`. The searches for
-- keys of eight bytes return -1 (search_other.go), so that the other code is taken.
-- The table has no duplicates: what `search` does for a sub-page or a sub-tree is left out.
pub mod Pages
pub mod Settle
pub mod Tree
use gdbx.Base.{
  ℕ, zero, suc, ◌+◌, ◌-◌, ◌*◌, ltb, leb, ◌==◌, if◌then◌else◌, Bool, true, false, List, [], ◌∷◌,
  length, Option, none, some, Run, ok, panic, ◌>>=◌, ◌||◌,
}
use gdbx.Bytes.{Bytes}
use gdbx.Page.Header.{is_branch_fast, is_leaf_fast}
use gdbx.Page.Entries.{num_entries_fast}
use gdbx.Node.Direct.{node_get_key_direct}
use gdbx.Node.Fast.{node_get_key_fast, node_get_child_pgno_fast}
use gdbx.Search.{
  search_leaf, search_branch, get_key_and_compare, binary_search_leaf_n, binary_search_branch_n,
}
use gdbx.Search.Order.{Side, less, same, more}
use gdbx.Meta.Trees.{is_empty}
use gdbx.Txn.Mapping.{page_slice}
use gdbx.Cursor.State.{
  CursorState, pointing, eof, Level, Cursor, Entry, no_entry, bad_entry, stack_full, reset,
  push_page_by_pgno,
}
use gdbx.Cursor.Move.{at_root, move_next, with_current}

-- On `n` entries, for at least one. The binary searches of both branches are the same code.
unfoldable pub search_page_asm : Bytes → List ℕ → ℕ → Run (Option ℕ)
search_page_asm p key n = is_branch_fast p >>= λ branch. elim branch [
  | true ↦
      if ltb 8 (length key)
      then binary_search_branch_n p key n
      else search_branch (λ i. get_key_and_compare p i key) n
  | false ↦
      if ltb 8 (length key)
      then binary_search_leaf_n p key n
      else search_leaf (λ i. get_key_and_compare p i key) n
]

abbrev pub is_same : Side → Bool
is_same less = false
is_same same = true
is_same more = false

-- A key that `nodeGetKeyDirect` does not find is nil.
abbrev pub or_nil : Option (List ℕ) → List ℕ
or_nil none = []
or_nil (some key) = key

-- `cmp` is what `compareKeys` does for the table; `by_default` is its `dbiUsesDefaultCmp`.
module _ (cmp : List ℕ → List ℕ → Side) (by_default : Bool) where
  -- `compareKeys(key, nodeKey)`
  unfoldable pub compare_at : Bytes → List ℕ → ℕ → Run Side
  compare_at p key i = node_get_key_fast p i >>= λ node_key. ok (cmp key node_key)

  -- `none` is a loop without fuel.
  unfoldable pub search_page : Bytes → List ℕ → Run (Option ℕ)
  search_page p key = num_entries_fast p >>= λ n.
      if n == 0
      then ok (some 0)
      else if by_default
      then search_page_asm p key n
      else is_branch_fast p >>= λ branch. elim branch [
        | true ↦ search_branch (compare_at p key) n
        | false ↦ search_leaf (compare_at p key) n
      ]

  -- The end of the search on a leaf of `n` nodes, at the index that is found on it.
  unfoldable pub settle_on :
      ℕ → Cursor → List ℕ → Bool → Bytes → List Level → ℕ → ℕ → Run (Option (Cursor × Entry))
  settle_on fuel c key greater_or_equal p rest idx n =
      let here = record c { stack = record { page = p; idx = idx } ∷ rest } in
      if leb n idx
      then (if greater_or_equal
          then move_next fuel (record c {
            state = pointing;
            stack = record { page = p; idx = if ltb 0 n then n - 1 else idx } ∷ rest;
          })
          else ok (some (record here { state = eof }, no_entry)))
      else node_get_key_direct p idx >>= λ found_key.
          if is_same (cmp key (or_nil found_key)) || greater_or_equal
          then (with_current (record here { state = pointing }) >>= λ r. ok (some r))
          else ok (some (record here { state = eof }, no_entry))

  unfoldable pub settle : ℕ → Cursor → List ℕ → Bool → ℕ → Run (Option (Cursor × Entry))
  settle fuel c key greater_or_equal idx = elim (c.stack) [
    | [] ↦ panic
    | l ∷ rest ↦
        num_entries_fast l.page >>= λ n. settle_on fuel c key greater_or_equal l.page rest idx n
  ]

  -- The loop down the tree from the page on top, on fuel; `none` is a loop without fuel. The slice that
  -- is prefetched is taken first.
  unfoldable pub search_down : ℕ → Cursor → List ℕ → Bool → Run (Option (Cursor × Entry))
  search_down zero c key greater_or_equal = ok none
  search_down (suc fuel) c key greater_or_equal = elim (c.stack) [
    | [] ↦ panic
    | l ∷ rest ↦ search_page l.page key >>= λ found. elim found [
      | none ↦ ok none
      | some idx ↦ is_leaf_fast l.page >>= λ leaf. elim leaf [
        | true ↦ settle fuel c key greater_or_equal idx
        | false ↦ node_get_child_pgno_fast l.page idx >>= λ child.
            page_slice c.mmap_data c.txn.page_bytes child >>= λ _.
            let here = record c { stack = record l { idx = idx } ∷ rest } in
            push_page_by_pgno here child 0 >>= λ pushed. elim pushed [
              | none ↦ ok (some (here, stack_full))
              | some c' ↦ search_down fuel c' key greater_or_equal
            ]
      ]
    ]
  ]

  unfoldable pub search : ℕ → Cursor → List ℕ → Bool → Run (Option (Cursor × Entry))
  search fuel c key greater_or_equal =
      if is_empty c.tree
      then ok (some (record (reset c) { state = eof }, no_entry))
      else at_root (reset c) (λ n. 0) >>= λ c'. search_down fuel c' key greater_or_equal
