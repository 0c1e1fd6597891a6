-- ===== src/Tests/Cursors.antt =====
-- Runs of cursors on the tree of two leaves.
use gdbx.Base.{ℕ, zero, suc, ◌+◌, ◌*◌, ◌≤◌, ◌<◌, refl, List, [], ◌∷◌, true, arith}
use gdbx.Page.Header.{flag_set}
use gdbx.Meta.Format.{Tree}
use gdbx.Meta.Trees.{is_empty}
use gdbx.Txn.Trees.{page_at, child_of}
use gdbx.Cursor.State.{CursorState, pointing, eof, Level, Cursor}
use gdbx.Cursor.Entries.{entries, IsGrown, IsPointing}
use gdbx.Search.Order.{compare_bytes}
use gdbx.Cursor.Seek.{search}
use gdbx.Cursor.Seek.Settle.{Seeks}
use gdbx.Cursor.Seek.Tree.{search_lem}
use gdbx.Tests.Trees.{txn, has_key, tree}

abbrev table : Tree
table = record {
  flags = 0;
  height = 2;
  dupfix_size = 0;
  root = 2;
  branch_pages = 1;
  leaf_pages = 2;
  large_pages = 0;
  sequence = 0;
  items = 3;
  mod_txnid = 1;
}

abbrev cursor : CursorState → List Level → Cursor
cursor state levels = record {
  state = state;
  stack = levels;
  txn = txn;
  mmap_data = txn.mmap_data;
  tree = table;
}

leaf-IsGrown : (g : ℕ) → g < 2 → IsGrown txn 0 (page_at txn g)
unfolding flag_set
leaf-IsGrown zero h = (omega arith, refl, omega arith)
leaf-IsGrown (suc zero) h = (omega arith, refl, omega arith)
leaf-IsGrown (suc (suc g)) h = absurd (omega arith)

below :
    (j : ℕ)
    → j < 2
    → (child_of (page_at txn 2) j * 48 + 48 ≤ 144)
      × IsGrown txn 0 (page_at txn (child_of (page_at txn 2) j))
below zero h = (omega arith, leaf-IsGrown 0 (omega arith))
below (suc zero) h = (omega arith, leaf-IsGrown 1 (omega arith))
below (suc (suc j)) h = absurd (omega arith)

root-IsGrown : IsGrown txn 1 (page_at txn 2)
unfolding flag_set
root-IsGrown = (
  omega arith,
  refl,
  omega arith,
  λ j h. (has_key 2 j (omega arith) h, (below j h).0, (below j h).1),
)

-- The cursor at the last node of the first leaf.
abbrev at_first : Cursor
at_first =
    cursor pointing
      (record { page = page_at txn 0; idx = 0 } ∷ record { page = page_at txn 2; idx = 0 } ∷ [])

at_first-IsPointing : IsPointing txn at_first
at_first-IsPointing = record {
  of_txn = refl;
  same_map = refl;
  points = refl;
  deep = refl;
  levels = (leaf-IsGrown 0 (omega arith), omega arith, (root-IsGrown, omega arith, tt));
}

search_lem_example :
    Seeks txn
      (cursor eof at_first.stack)
      (7 ∷ [])
      (entries txn 1 2)
      (search compare_bytes true 2 (cursor eof at_first.stack) (7 ∷ []) true)
unfolding is_empty
search_lem_example =
    search_lem compare_bytes txn (cursor eof at_first.stack) (7 ∷ []) 1 2 refl refl refl
      (omega arith) (omega arith) refl tree root-IsGrown (omega arith)
