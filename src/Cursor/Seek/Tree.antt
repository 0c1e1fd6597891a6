-- ===== src/Cursor/Seek/Tree.antt =====
-- A search from the root of a tree to the entry it ends at.
use mathlib.Core.List.{append_assoc, append-nil}
use gdbx.Base.{
  ℕ, zero, suc, ◌+◌, ◌-◌, ◌*◌, ◌≤◌, ◌<◌, ◌≡◌, refl, sym, ap, subst, ◌∙◌, true, false, List, [], ◌∷◌,
  ◌++◌, length, arith, Run, ok, Option, some,
}
use gdbx.Bytes.{Bytes}
use gdbx.Bytes.Loads.{load16_ok}
use gdbx.Page.Header.{is_leaf_fast}
use gdbx.Page.Shape.{count}
use gdbx.Node.Variants.{child_and_flags_accessors}
use gdbx.Meta.Trees.{is_empty}
use gdbx.Search.Order.{Side, compare_bytes}
use gdbx.Txn.Mapping.{ReadTxn}
use gdbx.Txn.Trees.{page_at, child_of, IsTree, IsBetween, is_leaf_page}
use gdbx.Cursor.State.{uninitialized, Level, Cursor, Entry, cursor_stack_size}
use gdbx.Cursor.Entries.{
  Position, items, entries, ahead, ahead-cons, items-branch, IsGrown, IsGrown-pos, IsOnStack,
}
use gdbx.Cursor.Descend.{push_child, child-page}
use gdbx.Cursor.First.{first_of, starting, at_root-ok}
use gdbx.Cursor.Sorted.{All, All-append, IsBelow, IsFrom, items-split, left-IsBelow, right-IsFrom}
use gdbx.Cursor.Seek.{search_page, search_down, settle, search}
use gdbx.Cursor.Seek.Pages.{search_page-leaf, search_page-branch}
use gdbx.Cursor.Seek.Settle.{Seeks, settle-Seeks}

IsTree-fits :
    (t : ReadTxn) (h g : ℕ)
    → IsTree compare_bytes t h g
    → g * t.page_bytes + t.page_bytes ≤ t.mmap_data.size
IsTree-fits t zero g v = v.0
IsTree-fits t (suc h) g v = v.0

is_leaf_fast-page : (p : Bytes) → 20 ≤ p.size → is_leaf_fast p ≡ ok (is_leaf_page p)
unfolding is_leaf_fast
is_leaf_fast-page p h = rw (load16_ok p 10 (omega (arith, h)))

module _ (cmp : List ℕ → List ℕ → Side) (t : ReadTxn) (c : Cursor) (of_txn : c.txn ≡ t)
    (same_map : c.mmap_data ≡ t.mmap_data) (low : c.tree.height ≤ cursor_stack_size) (key : List ℕ)
    (small : t.page_bytes < 65536) where
  down-leaf :
      (fuel idx : ℕ) (p : Bytes) (rest : List Level)
      → search_page cmp true p key ≡ ok (some idx)
      → is_leaf_fast p ≡ ok true
      → search_down cmp true (suc fuel) (starting c (first_of p ∷ rest)) key true
        ≡ settle cmp true fuel (starting c (first_of p ∷ rest)) key true idx
  unfolding search_down
  down-leaf fuel idx p rest e leaf = rw (e, leaf)

  down-branch :
      (fuel k idx : ℕ) (p : Bytes) (rest : List Level)
      → search_page cmp true p key ≡ ok (some idx)
      → is_leaf_fast p ≡ ok false
      → IsGrown t (suc k) p
      → idx < count p
      → length (first_of p ∷ rest) < cursor_stack_size
      → search_down cmp true (suc fuel) (starting c (first_of p ∷ rest)) key true
        ≡ search_down cmp true fuel
            (starting c
              (first_of (page_at t (child_of p idx)) ∷ record { page = p; idx = idx } ∷ rest))
            key
            true
  unfolding search_down
  down-branch fuel k idx p rest e leaf grown lt room = rw (
    e,
    leaf,
    (child_and_flags_accessors p idx (grown.3 idx lt).0).3,
    child-page t (record c { state = uninitialized }) of_txn same_map (child_of p idx)
        (grown.3 idx lt).1,
    push_child t (record c { state = uninitialized }) of_txn same_map
        (record { page = p; idx = idx }) rest k grown lt room,
  )

  -- The entries of a branch page and those behind it, around child `r`.
  around_child :
      (k r g : ℕ) (rest : List Level)
      → r < count (page_at t g)
      → items t (suc k) (page_at t g) 0 (count (page_at t g)) ++ ahead t (suc (suc k)) rest
        ≡ items t (suc k) (page_at t g) 0 r
          ++ (entries t k (child_of (page_at t g) r)
              ++ ahead t (suc k) (record { page = page_at t g; idx = r } ∷ rest))
  around_child k r g rest lt =
      let p = page_at t g in
      let total : count p ≡ r + (count p - r) = omega arith in
      let start : 0 + r ≡ r = omega arith in
      ap (λ n. items t (suc k) p 0 n ++ ahead t (suc (suc k)) rest) total
      ∙ ap (λ ps. ps ++ ahead t (suc (suc k)) rest) (items-split t (suc k) p 0 r (count p - r))
      ∙ append_assoc (items t (suc k) p 0 r) (items t (suc k) p (0 + r) (count p - r))
          (ahead t (suc (suc k)) rest)
      ∙ ap
          (λ i.
            items t (suc k) p 0 r
            ++ (items t (suc k) p i (count p - r) ++ ahead t (suc (suc k)) rest))
          start
      ∙ ap (λ ps. items t (suc k) p 0 r ++ (ps ++ ahead t (suc (suc k)) rest))
          (items-branch t k p r lt)
      ∙ ap (λ ps. items t (suc k) p 0 r ++ ps)
          (append_assoc (entries t k (child_of p r)) (items t (suc k) p (r + 1) (count p - (r + 1)))
              (ahead t (suc (suc k)) rest)
            ∙ ap (λ ps. entries t k (child_of p r) ++ ps)
                (sym (ahead-cons t (suc k) (record { page = p; idx = r }) rest)))

  -- Entries that are all below the key may come first.
  after_more :
      (first_ones ps : List Position) (r : Run (Option (Cursor × Entry)))
      → All (IsBelow key) first_ones
      → Seeks t c key ps r
      → Seeks t c key (first_ones ++ ps) r
  after_more first_ones ps r h (before, after, order, b, a, e) = (
    first_ones ++ before,
    after,
    ap (λ qs. first_ones ++ qs) order ∙ sym (append_assoc first_ones before after),
    All-append (IsBelow key) first_ones before h b,
    a,
    e,
  )

  down-Seeks :
      (k fuel g : ℕ) (rest : List Level)
      → IsTree compare_bytes t k g
      → IsOnStack t k (first_of (page_at t g) ∷ rest)
      → k + length (first_of (page_at t g) ∷ rest) ≡ c.tree.height
      → k < fuel
      → All (IsFrom key) (ahead t (suc k) rest)
      → Seeks t c key
          (entries t k g ++ ahead t (suc k) rest)
          (search_down cmp true fuel (starting c (first_of (page_at t g) ∷ rest)) key true)
  down-Seeks k zero g rest tree s deep enough later = absurd (omega (arith, enough))
  down-Seeks zero (suc fuel) g rest (fits, leaf, no_branch, v) s deep enough later =
      let (idx, run, bound) = search_page-leaf cmp (page_at t g) key s.1 v no_branch in
      rw
        (down-leaf fuel idx (page_at t g) rest run
          (is_leaf_fast-page (page_at t g) v.header_fits ∙ ap ok leaf))
        (settle-Seeks cmp t c of_txn same_map low key fuel (page_at t g) v small rest idx s
          (omega (arith, deep)) bound later)
  down-Seeks (suc k) (suc fuel) g rest (fits, no_leaf, branch, v, pos, below) s deep enough later =
      let p = page_at t g in
      let (r, run, (lt, before, behind)) = search_page-branch cmp p key pos v branch in
      let between : (j : ℕ) → j < count p → IsBetween compare_bytes t k p j =
        λ j h. (below j h).1 in
      let here : Level = record { page = p; idx = r } in
      let child = (s.0.3 r lt).2 in
      let step =
        down-branch fuel k r p rest run (is_leaf_fast-page p v.header_fits ∙ ap ok no_leaf) s.0 lt
          (omega (arith, deep, low)) in
      let behind_here : All (IsFrom key) (ahead t (suc k) (here ∷ rest)) =
        rw (ahead-cons t (suc k) here rest) (
          All-append (IsFrom key) (items t (suc k) p (r + 1) (count p - (r + 1)))
            (ahead t (suc (suc k)) rest) (right-IsFrom t k g key r lt before behind between)
            later) in
      rw (step, around_child k r g rest lt)
        (after_more (items t (suc k) p 0 r)
          (entries t k (child_of p r) ++ ahead t (suc k) (here ∷ rest))
          (search_down cmp true fuel
            (starting c (first_of (page_at t (child_of p r)) ∷ here ∷ rest)) key true)
          (left-IsBelow t k g key r lt before behind between)
          (down-Seeks k fuel (child_of p r) (here ∷ rest) (below r lt).0
            (child, IsGrown-pos t k (page_at t (child_of p r)) child, (s.0, lt, s.2))
            (omega (arith, deep)) (omega (arith, enough)) behind_here))

-- In a tree of height h with its keys in the order of `bytes.Compare`, of h + 1 levels and at most 32,
-- with pages of less than 64 KB that have nodes, `search` for a key or a greater one, in a table with
-- the default comparison and with fuel for h + 1 pages, parts the entries in those whose keys are less
-- and those whose keys are not, in the tree's order; it returns the first of these with the cursor
-- there, or, where there is none, the error that there is none.
pub search_lem :
    (cmp : List ℕ → List ℕ → Side) (t : ReadTxn) (c : Cursor) (key : List ℕ) (h fuel : ℕ)
    → c.txn ≡ t
    → c.mmap_data ≡ t.mmap_data
    → suc h ≡ c.tree.height
    → c.tree.height ≤ cursor_stack_size
    → t.page_bytes < 65536
    → is_empty c.tree ≡ false
    → IsTree compare_bytes t h c.tree.root
    → IsGrown t h (page_at t c.tree.root)
    → h < fuel
    → Seeks t (record c { txn = t }) key (entries t h c.tree.root) (search cmp true fuel c key true)
unfolding search ahead
search_lem cmp t c key h fuel of_txn same_map levels low small items_left tree grown enough =
    let fits = IsTree-fits t h c.tree.root tree in
    rw (items_left, at_root-ok t c of_txn same_map low h levels fits grown items_left)
      (subst
        (λ ps.
          Seeks t (record c { txn = t }) key ps
            (search_down cmp true fuel
              (starting (record c { txn = t }) (first_of (page_at t c.tree.root) ∷ [])) key true))
        (append-nil (entries t h c.tree.root))
        (down-Seeks cmp t (record c { txn = t }) refl same_map low key small h fuel c.tree.root []
          tree (grown, IsGrown-pos t h (page_at t c.tree.root) grown, tt) (omega (arith, levels))
          enough tt))
