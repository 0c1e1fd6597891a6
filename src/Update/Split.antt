-- ===== src/Update/Split.antt =====
-- Inserting a node, with the splits up the path: `insertNode`, `insertNodeAt`, `createRoot`,
-- `splitAndInsert`, `insertIntoParent`, `createNewRoot` and `buildBranchNode` of cursor_modify.go. The
-- recursion of `splitAndInsert` through `insertIntoParent` is on rounds, one more than there are levels; the counters have the widths of
-- the tree's fields.
pub mod Depth
pub mod Ending
use gdbx.Base.{
  ℕ, zero, suc, ◌+◌, ◌-◌, ◌%◌, ◌^◌, ◌==◌, ltb, leb, if◌then◌else◌, Bool, true, false, ◌||◌, List,
  [], ◌∷◌, Option, none, some, length, Run, ok, ◌>>=◌,
}
use gdbx.Bytes.{Bytes, slice, store8, store16, store32, store64, copy_list}
use gdbx.Page.Header.{page_no, page_type, is_leaf, init, page_branch, page_leaf, invalid_pgno}
use gdbx.Page.Entries.{num_entries, entry_offset, calc_node_size}
use gdbx.Page.Edit.{insert_entry, insert_entry_with_buf, remove_entries_from}
use gdbx.Page.Compact.{compact_with_buf}
use gdbx.Page.Split.{split_point}
use gdbx.Node.Fields.{node_size}
use gdbx.Node.Direct.{node_get_key_direct}
use gdbx.Meta.Format.{Tree}
use gdbx.Update.SubPage.{zeroed}
use gdbx.Update.Duplicates.{list_of}
use gdbx.Update.State.{
  System, WriteTxn, WriteCursor, PathLevel, put_dirty, page_of, mark_tree_dirty, allocate_page,
  touch_page,
}

pub data UpdateError : Type 0 where
  corrupted page_full : UpdateError

-- How an update ends; `spent` is the end of the rounds.
pub data Done : Type 0 where
  done : WriteCursor → Done
  error : UpdateError → WriteCursor → Done
  spent : Done

unfoldable pub build_branch_node : List ℕ → ℕ → Run Bytes
build_branch_node key child = do
  d ← store32 (zeroed (node_size + length key)) 0 child
  d ← store8 d 4 0
  d ← store8 d 5 0
  d ← store16 d 6 (length key % 65536)
  copy_list d node_size key

-- The entries of `p` from `i` on, `rounds` of them, into `q` from the index `new_idx` on; the Boolean
-- says that all of them end inside the page. The results of `insertEntry` are dropped.
unfoldable pub move_entries : (ℕ → ℕ) → Bytes → ℕ → ℕ → ℕ → Bytes → Run (Bytes × Bool)
move_entries pooled p i new_idx zero q = ok (q, true)
move_entries pooled p i new_idx (suc rounds) q = do
  offset ← entry_offset p i
  size ← calc_node_size p i
  if size == 0
      then move_entries pooled p (i + 1) new_idx rounds q
      else if ltb p.size (offset + size)
      then ok (q, false)
      else do
        node ← slice p offset (offset + size)
        r ← insert_entry q new_idx node pooled
        move_entries pooled p (i + 1) (new_idx + 1) rounds r.0

-- The two pages of a split, with the node in one of them, or what stood in the way.
pub data Halves : Type 0 where
  halves : Bytes → Bytes → Halves
  broken : UpdateError → Bytes → Bytes → Halves

abbrev pub left_result : Bytes → Bytes × Bool → Halves
left_result q (p, true) = halves p q
left_result q (p, false) = broken page_full p q

abbrev pub right_result : Bytes → Bytes × Bool → Halves
right_result p (q, true) = halves p q
right_result p (q, false) = broken page_full p q

-- What is left in `p` is compacted, and the node goes to its side.
unfoldable pub place_node : (ℕ → ℕ) → Bytes → ℕ → ℕ → List ℕ → Bytes → Bytes → Run Halves
place_node pooled buf split_idx idx node p q = do
  p1 ← remove_entries_from p split_idx
  r ← compact_with_buf p1 buf pooled
  if split_idx == 0
      then (do s ← insert_entry_with_buf r.0 0 node buf pooled; ok (left_result q s))
      else if ltb idx split_idx
      then (do s ← insert_entry_with_buf r.0 idx node buf pooled; ok (left_result q s))
      else do s ← insert_entry_with_buf q (idx - split_idx) node buf pooled; ok (right_result r.0 s)

abbrev pub moved_or_broken : Bytes → Bytes × Bool → (Bytes → Run Halves) → Run Halves
moved_or_broken p (q, true) go_on = go_on q
moved_or_broken p (q, false) go_on = ok (broken corrupted p q)

-- The split of the page `p` by the new page `q`, and the node at `idx` in one of the two.
unfoldable pub split_page : (ℕ → ℕ) → Bytes → ℕ → ℕ → List ℕ → Bytes → Bytes → Run Halves
split_page pooled buf split_idx idx node p q = do
  m ← move_entries pooled p split_idx 0 (num_entries p - split_idx) q
  moved_or_broken p m (place_node pooled buf split_idx idx node p)

-- A page that was handed out as a page of a type, of this transaction.
unfoldable pub init_page : WriteTxn → Bytes → ℕ → ℕ → Run Bytes
init_page t p n flags = do p1 ← init p n flags (t.page_bytes % 65536); store64 p1 0 t.txn_id

abbrev pub put_page : WriteCursor → ℕ → Bytes → WriteCursor
put_page c n p = record c { txn = put_dirty (c.txn) n p }

abbrev pub with_items : Bool → Tree → Tree
with_items true tree = tree
with_items false tree = record tree { items = (tree.items + 1) % 2 ^ 64 }

abbrev pub with_page : Bool → Tree → Tree
with_page true tree = record tree { leaf_pages = (tree.leaf_pages + 1) % 2 ^ 32 }
with_page false tree = record tree { branch_pages = (tree.branch_pages + 1) % 2 ^ 32 }

-- The counters after a split.
abbrev pub count_split : WriteCursor → Bool → Bool → WriteCursor
count_split c leaf is_update = record c {
  tree = record (with_items is_update (with_page leaf c.tree)) { mod_txnid = c.txn.txn_id };
}

-- A run of the split, for a cursor, an index, a node, and whether the key was there.
abbrev pub Splitting : Type 0
Splitting = WriteCursor → ℕ → List ℕ → Bool → Run Done

module _ (sys : System) where
  -- The two branch nodes, whose results are dropped.
  unfoldable pub create_new_root : WriteCursor → ℕ → ℕ → List ℕ → Run WriteCursor
  create_new_root c left right sep = do
    (n, fresh, t) ← allocate_page sys c.txn
    r ← init_page t fresh n page_branch
    first ← build_branch_node [] left
    r1 ← insert_entry r 0 (list_of first) sys.pooled
    second ← build_branch_node sep right
    r2 ← insert_entry r1.0 1 (list_of second) sys.pooled
    ok (
        mark_tree_dirty (record c {
          txn = put_dirty t n r2.0;
          tree = record (c.tree) {
            root = n;
            height = (c.tree.height + 1) % 2 ^ 16;
            branch_pages = (c.tree.branch_pages + 1) % 2 ^ 32;
            mod_txnid = c.txn.txn_id;
          };
        }))

  -- The branch node went into the parent, or the parent is split as well.
  abbrev pub parent_result :
      Splitting → WriteCursor → PathLevel → ℕ → List ℕ → Bytes × Bool → Run Done
  parent_result split c par idx node (q, true) = ok (
      done (record (put_page c par.page_no q) {
        tree = record (c.tree) { branch_pages = (c.tree.branch_pages + 1) % 2 ^ 32 };
      }))
  parent_result split c par idx node (q, false) = split (put_page c par.page_no q) idx node false

  unfoldable pub insert_into_top : Splitting → WriteCursor → ℕ → List ℕ → List PathLevel → Run Done
  insert_into_top split c right sep [] = ok (error corrupted c)
  insert_into_top split c right sep (par ∷ rest) = do
    p ← page_of c.txn par.page_no
    node ← build_branch_node sep right
    r ← insert_entry p (par.idx + 1) (list_of node) sys.pooled
    parent_result split c par (par.idx + 1) (list_of node) r

  -- The stack is that of the pages above the one that was split.
  unfoldable pub insert_into_parent :
      Splitting → WriteCursor → ℕ → ℕ → List ℕ → List PathLevel → Run Done
  insert_into_parent split c left right sep [] = do
    c' ← create_new_root c left right sep
    ok (done c')
  insert_into_parent split c left right sep (par ∷ rest) = do
    c' ← touch_page sys (record c { stack = par ∷ rest })
    insert_into_top split c' right sep c'.stack

  -- What follows the split of the top page `l` by the new page `n`.
  abbrev pub with_separator :
      Splitting → WriteCursor → ℕ → ℕ → List PathLevel → Option (List ℕ) → Run Done
  with_separator split c left n above none = ok (error corrupted c)
  with_separator split c left n above (some sep) = insert_into_parent split c left n sep above

  abbrev pub after_split :
      Splitting → WriteCursor → PathLevel → ℕ → Bool → List PathLevel → Halves → Run Done
  after_split split c l n is_update above (broken e p q) =
      ok (error e (put_page (put_page c l.page_no p) n q))
  after_split split c l n is_update above (halves p q) = do
    leaf ← is_leaf p
    sep ← node_get_key_direct q 0
    left ← page_no p
    with_separator split (count_split (put_page (put_page c l.page_no p) n q) leaf is_update) left n
        above sep

  unfoldable pub split_top : Splitting → WriteCursor → ℕ → List ℕ → Bool → List PathLevel → Run Done
  split_top split c idx node is_update [] = ok (error corrupted c)
  split_top split c idx node is_update (l ∷ above) = do
    p ← page_of c.txn l.page_no
    split_idx ← split_point p (length node) idx
    (n, fresh, t) ← allocate_page sys c.txn
    kind ← page_type p
    q ← init_page t fresh n kind
    h ← split_page sys.pooled t.compact_buf split_idx idx node p q
    after_split split (record c { txn = t }) l n is_update above h

  unfoldable pub split_and_insert : ℕ → WriteCursor → ℕ → List ℕ → Bool → Run Done
  split_and_insert zero c idx node is_update = ok spent
  split_and_insert (suc rounds) c idx node is_update =
      split_top (split_and_insert rounds) c idx node is_update c.stack

  abbrev pub insert_result :
      WriteCursor → PathLevel → List PathLevel → ℕ → List ℕ → Bool → Bytes × Bool → Run Done
  insert_result c l above idx node is_update (q, true) = ok (
      done (record (put_page c l.page_no q) {
        tree = with_items is_update c.tree;
        stack = record l { idx = idx % 65536 } ∷ above;
      }))
  insert_result c l above idx node is_update (q, false) =
      split_and_insert (suc (suc (length above))) (put_page c l.page_no q) idx node is_update

  -- The top of the stack is the page, which is dirty.
  unfoldable pub insert_node_at : WriteCursor → ℕ → List ℕ → Bool → List PathLevel → Run Done
  insert_node_at c idx node is_update [] = ok (error corrupted c)
  insert_node_at c idx node is_update (l ∷ above) = do
    p ← page_of c.txn l.page_no
    r ← insert_entry_with_buf p idx node c.txn.compact_buf sys.pooled
    insert_result c l above idx node is_update r

  abbrev pub root_result : WriteCursor → ℕ → Bytes × Bool → Run Done
  root_result c n (p, false) = ok (error page_full (put_page c n p))
  root_result c n (p, true) = ok (
      done (
        mark_tree_dirty (record (put_page c n p) {
          tree = record (c.tree) {
            root = n;
            height = 1;
            leaf_pages = 1;
            items = 1;
            mod_txnid = c.txn.txn_id;
          };
          stack = record { page_no = n; idx = 0; is_dirty = true } ∷ [];
        })))

  unfoldable pub create_root : WriteCursor → List ℕ → Run Done
  create_root c node = do
    (n, fresh, t) ← allocate_page sys c.txn
    p ← init_page t fresh n page_leaf
    r ← insert_entry p 0 node sys.pooled
    root_result (record c { txn = t }) n r

  abbrev pub insert_touched : WriteCursor → List ℕ → List PathLevel → Run Done
  insert_touched c node [] = ok (error corrupted c)
  insert_touched c node (l ∷ above) = insert_node_at c l.idx node false (l ∷ above)

  abbrev pub insert_on : WriteCursor → List ℕ → List PathLevel → Run Done
  insert_on c node [] = ok (error corrupted c)
  insert_on c node (l ∷ above) = do c' ← touch_page sys c; insert_touched c' node c'.stack

  unfoldable pub insert_node : WriteCursor → List ℕ → Run Done
  insert_node c node =
      if c.tree.root == invalid_pgno || c.tree.items == 0
      then create_root c node
      else insert_on c node c.stack
