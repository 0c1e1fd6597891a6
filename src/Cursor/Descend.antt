-- ===== src/Cursor/Descend.antt =====
-- Descending to the left: `descendLeft` and the loop of `first`.
use mathlib.Core.List.{append_assoc}
use gdbx.Base.{
  ℕ, zero, suc, ◌+◌, ◌-◌, ◌*◌, ◌≤◌, ◌<◌, ◌≡◌, refl, ap, ◌∙◌, true, List, ◌∷◌, ◌++◌, length, arith,
  ok, ◌>>=◌, some, gt→leb,
}
use gdbx.Page.Shape.{count}
use gdbx.Node.Variants.{child_and_flags_accessors}
use gdbx.Search.Order.{compare_bytes}
use gdbx.Txn.Mapping.{ReadTxn, page_slice}
use gdbx.Txn.Trees.{page_at, child_of, page_slice-page_at}
use gdbx.Cursor.State.{
  Level, Cursor, pointing, push_page_by_pgno, entry_at, get_current, cursor_stack_size,
}
use gdbx.Cursor.Move.{push_left, levels_to_descend, descend_left, with_current}
use gdbx.Cursor.Entries.{
  Position, items, ahead, IsGrown, IsOnStack, IsGrown-fits, IsGrown-pos, num_entries_fast-count,
  items-leaf, items-branch,
}

-- The level below another one, at its first node.
abbrev pub first_below : ReadTxn → Level → Level
first_below t l = record { page = page_at t (child_of l.page l.idx); idx = 0 }

-- The stack `k` levels further down: its top, and the levels above.
unfoldable pub left_top : ReadTxn → ℕ → Level → Level
left_top t zero l = l
left_top t (suc k) l = left_top t k (first_below t l)

unfoldable pub left_rest : ReadTxn → ℕ → Level → List Level → List Level
left_rest t zero l rest = rest
left_rest t (suc k) l rest = left_rest t k (first_below t l) (l ∷ rest)

pub length-left_rest :
    (t : ReadTxn) (k : ℕ) (l : Level) (rest : List Level)
    → length (left_rest t k l rest) ≡ k + length rest
unfolding left_rest
length-left_rest t zero l rest = omega arith
length-left_rest t (suc k) l rest = length-left_rest t k (first_below t l) (l ∷ rest) ∙ omega arith

pub first_below-IsOnStack :
    (t : ReadTxn) (k : ℕ) (l : Level) (rest : List Level)
    → IsOnStack t (suc k) (l ∷ rest)
    → IsOnStack t k (first_below t l ∷ l ∷ rest)
first_below-IsOnStack t k l rest s =
    let next = (s.0.3 l.idx s.1).2 in (next, IsGrown-pos t k _ next, s)

pub left-IsOnStack :
    (t : ReadTxn) (k : ℕ) (l : Level) (rest : List Level)
    → IsOnStack t k (l ∷ rest)
    → IsOnStack t 0 (left_top t k l ∷ left_rest t k l rest)
unfolding left_top left_rest
left-IsOnStack t zero l rest s = s
left-IsOnStack t (suc k) l rest s =
    left-IsOnStack t k (first_below t l) (l ∷ rest) (first_below-IsOnStack t k l rest s)

-- The entries from the index of the top on.
abbrev pub from_top : ReadTxn → ℕ → Level → List Level → List Position
from_top t k l rest = items t k l.page l.idx (count l.page - l.idx) ++ ahead t (suc k) rest

pub left-ahead :
    (t : ReadTxn) (k : ℕ) (l : Level) (rest : List Level)
    → IsOnStack t k (l ∷ rest)
    → from_top t k l rest
      ≡ ((left_top t k l).page, (left_top t k l).idx)
        ∷ ahead t 0 (left_top t k l ∷ left_rest t k l rest)
unfolding left_top left_rest ahead
left-ahead t zero l rest (grown, lt, s) = rw (items-leaf t l.page l.idx lt)
left-ahead t (suc k) l rest s =
    let p = page_at t (child_of l.page l.idx) in
    let z : count p ≡ count p - 0 = omega arith in
    rw (items-branch t k l.page l.idx s.1) (
      append_assoc (items t k p 0 (count p))
        (items t (suc k) l.page (l.idx + 1) (count l.page - (l.idx + 1)))
        (ahead t (suc (suc k)) rest)
      ∙ ap (λ n. items t k p 0 n ++ ahead t (suc k) (l ∷ rest)) z
      ∙ left-ahead t k (first_below t l) (l ∷ rest) (first_below-IsOnStack t k l rest s))

module _ (t : ReadTxn) (c : Cursor) (of_txn : c.txn ≡ t)
    (same_map : c.mmap_data ≡ t.mmap_data) where
  pub child-page :
      (g : ℕ)
      → g * t.page_bytes + t.page_bytes ≤ t.mmap_data.size
      → page_slice c.mmap_data c.txn.page_bytes g ≡ ok (page_at t g)
  child-page g h = rw (same_map, of_txn) (page_slice-page_at compare_bytes t g h)

  pub push_child :
      (l : Level) (rest : List Level) (k : ℕ)
      → IsGrown t (suc k) l.page
      → l.idx < count l.page
      → length (l ∷ rest) < cursor_stack_size
      → push_page_by_pgno (record c { stack = l ∷ rest }) (child_of l.page l.idx) 0
        ≡ ok (some (record c { stack = first_below t l ∷ l ∷ rest }))
  unfolding push_page_by_pgno
  push_child l rest k (fits, branch, pos, below) lt room = rw (
    gt→leb cursor_stack_size (length (l ∷ rest)) room,
    child-page (child_of l.page l.idx) (below l.idx lt).1,
    num_entries_fast-count (page_at t (child_of l.page l.idx))
        (IsGrown-fits t k _ (below l.idx lt).2),
  )

  pub push_left-left :
      (k : ℕ) (l : Level) (rest : List Level)
      → IsOnStack t k (l ∷ rest)
      → k + length (l ∷ rest) ≤ cursor_stack_size
      → push_left (record c { stack = l ∷ rest }) k
        ≡ ok (record c { stack = left_top t k l ∷ left_rest t k l rest }, true)
  unfolding push_left left_top left_rest
  push_left-left zero l rest s room = refl
  push_left-left (suc k) l rest s room =
      rw
        (
          (child_and_flags_accessors l.page l.idx (s.0.3 l.idx s.1).0).2,
          push_child l rest k s.0 s.1 (omega (arith, room)),
        )
        (push_left-left k (first_below t l) (l ∷ rest) (first_below-IsOnStack t k l rest s)
          (omega (arith, room)))

  -- A cursor that points at a level's node returns that entry.
  pub at_top :
      (l : Level) (rest : List Level)
      → with_current (record c { state = pointing; stack = l ∷ rest })
        ≡ (entry_at t l.page l.idx >>= λ e. ok (record c { state = pointing; stack = l ∷ rest }, e))
  unfolding get_current
  at_top l rest = rw of_txn

module _ (t : ReadTxn) (c : Cursor) (of_txn : c.txn ≡ t)
    (same_map : c.mmap_data ≡ t.mmap_data) where
  pub descend_left-left :
      (k : ℕ) (l : Level) (rest : List Level)
      → IsOnStack t k (l ∷ rest)
      → k + length (l ∷ rest) ≡ c.tree.height
      → c.tree.height ≤ cursor_stack_size
      → descend_left (record c { state = pointing; stack = l ∷ rest })
        ≡ with_current
            (record c { state = pointing; stack = left_top t k l ∷ left_rest t k l rest })
  unfolding descend_left levels_to_descend
  descend_left-left k l rest s deep room =
      let left : c.tree.height - length (l ∷ rest) ≡ k = omega (arith, deep) in
      rw (
        left,
        push_left-left t (record c { state = pointing }) of_txn same_map k l rest s
            (omega (arith, deep, room)),
      )
