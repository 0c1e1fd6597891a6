-- ===== src/Cursor/First.antt =====
-- `first` on a tree that has entries.
use mathlib.Core.List.{append-nil}
use gdbx.Base.{
  ℕ, zero, suc, ◌+◌, ◌-◌, ◌*◌, ◌≤◌, ◌<◌, ◌≡◌, refl, ap, sym, ◌∙◌, false, List, [], ◌∷◌, length,
  arith, ok, ◌>>=◌, some, ◌==◌, ge→ltb,
}
use gdbx.Bytes.{Bytes}
use gdbx.Page.Shape.{count}
use gdbx.Node.Variants.{child_and_flags_accessors}
use gdbx.Meta.Trees.{is_empty}
use gdbx.Search.Order.{compare_bytes}
use gdbx.Txn.Mapping.{ReadTxn}
use gdbx.Txn.Trees.{page_at, child_of, page_slice-page_at}
use gdbx.Cursor.State.{uninitialized, Level, Cursor, cursor_stack_size, reset}
use gdbx.Cursor.Move.{first, first_loop, at_root, get_page_data_fast, with_current}
use gdbx.Cursor.Entries.{
  items, ahead, entries, IsGrown, IsOnStack, IsGrown-fits, IsGrown-pos, num_entries_fast-count,
  is_branch_fast-page,
}
use gdbx.Cursor.Descend.{
  left_top, left_rest, length-left_rest, left-IsOnStack, left-ahead, from_top, push_child,
  first_below, first_below-IsOnStack,
}
use gdbx.Cursor.Next.{Arrives, with_stack, current-Arrives}

abbrev pub first_of : Bytes → Level
first_of p = record { page = p; idx = 0 }

-- A cursor with the stack, before `first` has set its state.
abbrev pub starting : Cursor → List Level → Cursor
starting c levels = record c { state = uninitialized; stack = levels }

module _ (t : ReadTxn) (c : Cursor) (of_txn : c.txn ≡ t) (same_map : c.mmap_data ≡ t.mmap_data)
    (low : c.tree.height ≤ cursor_stack_size) where
  first_loop-leaf :
      (fuel : ℕ) (p : Bytes) (rest : List Level)
      → IsGrown t 0 p
      → first_loop (suc fuel) (starting c (first_of p ∷ rest))
        ≡ (with_current (with_stack c (first_of p ∷ rest)) >>= λ r. ok (some r))
  unfolding first_loop
  first_loop-leaf fuel p rest (fits, leaf, pos) =
      let some_nodes : (count p == 0) ≡ false = ground arith in
      rw (is_branch_fast-page p fits, leaf, num_entries_fast-count p fits, some_nodes)

  first_loop-branch :
      (fuel k : ℕ) (p : Bytes) (rest : List Level)
      → IsGrown t (suc k) p
      → length (first_of p ∷ rest) < cursor_stack_size
      → first_loop (suc fuel) (starting c (first_of p ∷ rest))
        ≡ first_loop fuel (starting c (first_below t (first_of p) ∷ first_of p ∷ rest))
  unfolding first_loop
  first_loop-branch fuel k p rest s room = rw (
    is_branch_fast-page p s.0,
    s.1,
    (child_and_flags_accessors p 0 (s.3 0 s.2).0).3,
    push_child t (record c { state = uninitialized }) of_txn same_map (first_of p) rest k s s.2
        room,
  )

  first_loop-left :
      (k fuel : ℕ) (p : Bytes) (rest : List Level)
      → IsOnStack t k (first_of p ∷ rest)
      → k + length (first_of p ∷ rest) ≡ c.tree.height
      → k < fuel
      → first_loop fuel (starting c (first_of p ∷ rest)) ≡ (
          with_current (with_stack c (left_top t k (first_of p) ∷ left_rest t k (first_of p) rest))
          >>= λ r. ok (some r))
  unfolding left_top left_rest
  first_loop-left k zero p rest s deep enough = absurd (omega (arith, enough))
  first_loop-left zero (suc fuel) p rest s deep enough = first_loop-leaf fuel p rest s.0
  first_loop-left (suc k) (suc fuel) p rest s deep enough =
      first_loop-branch fuel k p rest s.0 (omega (arith, deep, low))
      ∙ first_loop-left k fuel (page_at t (child_of p 0)) (first_of p ∷ rest)
          (first_below-IsOnStack t k (first_of p) rest s) (omega (arith, deep))
          (omega (arith, enough))

module _ (t : ReadTxn) (c : Cursor) (of_txn : c.txn ≡ t) (same_map : c.mmap_data ≡ t.mmap_data)
    (low : c.tree.height ≤ cursor_stack_size) (h : ℕ) (levels : suc h ≡ c.tree.height)
    (root_fits : c.tree.root * t.page_bytes + t.page_bytes ≤ t.mmap_data.size)
    (grown : IsGrown t h (page_at t c.tree.root)) (some_items : is_empty c.tree ≡ false) where
  pub at_root-ok :
      at_root (reset c) (λ n. 0)
      ≡ ok (starting (record c { txn = t }) (first_of (page_at t c.tree.root) ∷ []))
  unfolding at_root reset get_page_data_fast
  at_root-ok = rw (
    of_txn,
    ge→ltb t.mmap_data.size (c.tree.root * t.page_bytes + t.page_bytes) root_fits,
    page_slice-page_at compare_bytes t c.tree.root root_fits,
    num_entries_fast-count (page_at t c.tree.root) (IsGrown-fits t h _ grown),
  )

  root_levels : IsOnStack t h (first_of (page_at t c.tree.root) ∷ [])
  root_levels = (grown, IsGrown-pos t h _ grown, tt)

  from_root : entries t h c.tree.root ≡ from_top t h (first_of (page_at t c.tree.root)) []
  unfolding ahead
  from_root =
      let whole : count (page_at t c.tree.root) ≡ count (page_at t c.tree.root) - 0 = omega arith in
      ap (items t h (page_at t c.tree.root) 0) whole
      ∙ sym (append-nil (items t h (page_at t c.tree.root) 0 (count (page_at t c.tree.root) - 0)))

  -- `first` returns the first of the tree's entries, with the others ahead.
  pub first-Arrives :
      (fuel : ℕ)
      → h < fuel
      → Arrives t (record c { txn = t }) (entries t h c.tree.root) (first fuel c)
  unfolding first
  first-Arrives fuel enough =
      let top = first_of (page_at t c.tree.root) in
      rw
        (
          some_items,
          at_root-ok,
          first_loop-left t (record c { txn = t }) refl same_map low h fuel (page_at t c.tree.root)
              [] root_levels (omega (arith, levels)) enough,
          from_root,
          left-ahead t h top [] root_levels,
        )
        (current-Arrives t (record c { txn = t }) refl same_map low (left_top t h top)
          (left_rest t h top []) (left-IsOnStack t h top [] root_levels)
          (ap suc (length-left_rest t h top []) ∙ omega (arith, levels)))
