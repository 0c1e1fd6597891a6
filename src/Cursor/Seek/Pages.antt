-- ===== src/Cursor/Seek/Pages.antt =====
-- `searchPage` with the default comparison, on the pages of a tree.
use gdbx.Base.{
  ℕ, ◌-◌, ◌≤◌, ◌<◌, ◌≡◌, refl, sym, ap, ◌∙◌, true, false, Bool-cases, List, length, arith, Run, ok,
  ◌>>=◌, Option, some, inl, inr, ltb, leb, ◌==◌,
}
use gdbx.Bytes.{Bytes}
use gdbx.Page.Shape.{count}
use gdbx.Node.Variants.{key_bytes}
use gdbx.Search.{
  search_branch, get_key_and_compare, binary_search_leaf_n, binary_search_branch_n, branch_result,
}
use gdbx.Search.Order.{Side, less, same, more, compare_bytes}
use gdbx.Search.Bounds.{IsLowerBound, search_branch-IsChildFor}
use gdbx.Search.Pages.{HasKeys, binary_search_leaf_n_lem, compare_key}
use gdbx.Txn.Trees.{HasNodes, is_branch_page}
use gdbx.Txn.Lookup.{FindsChild, answer, answer-at, falls, search_loop_congr}
use gdbx.Txn.FastTree.{bytes-IsOrder}
use gdbx.Cursor.Entries.{num_entries_fast-count, is_branch_fast-page}
use gdbx.Cursor.Seek.{search_page, search_page_asm}

-- A branch page is searched from the first separator on.
search_branch_congr :
    (a b : ℕ → Run Side) (n : ℕ)
    → ((i : ℕ) → 1 ≤ i → i < n → a i ≡ b i)
    → search_branch a n ≡ search_branch b n
unfolding search_branch
search_branch_congr a b n h = elim (Bool-cases (leb n 1)) [
  | inl e ↦ rw e
  | inr e ↦
      let many : 1 < n = ground arith in
      rw (e, h (n - 1) (omega arith) (omega arith))
        (ap
          (λ loop. b (n - 1) >>= λ c. elim c as (λ _. Run (Option ℕ)) [
            | more ↦ ok (some (n - 1))
            | same ↦ ok (some (n - 1))
            | less ↦ loop >>= λ o. ok (branch_result o)
          ])
          (search_loop_congr a b n 1 (n - 1) (λ i p q. h i p (omega arith))))
]

module _ (cmp : List ℕ → List ℕ → Side) (p : Bytes) (key : List ℕ) where
  pub leaf_asm :
      20 ≤ p.size
      → is_branch_page p ≡ false
      → search_page_asm p key (count p) ≡ binary_search_leaf_n p key (count p)
  unfolding search_page_asm binary_search_leaf_n
  leaf_asm fits no_branch = elim (Bool-cases (ltb 8 (length key))) [
    | inl e ↦ rw (is_branch_fast-page p fits, no_branch, e)
    | inr e ↦ rw (is_branch_fast-page p fits, no_branch, e)
  ]

  pub branch_asm :
      20 ≤ p.size
      → is_branch_page p ≡ true
      → search_page_asm p key (count p) ≡ search_branch (λ i. get_key_and_compare p i key) (count p)
  unfolding search_page_asm binary_search_branch_n
  branch_asm fits branch = elim (Bool-cases (ltb 8 (length key))) [
    | inl e ↦ rw (is_branch_fast-page p fits, branch, e)
    | inr e ↦ rw (is_branch_fast-page p fits, branch, e)
  ]

  pub by_asm :
      20 ≤ p.size → 0 < count p → search_page cmp true p key ≡ search_page_asm p key (count p)
  unfolding search_page
  by_asm fits pos =
      let some_nodes : (count p == 0) ≡ false = ground arith in
      rw (num_entries_fast-count p fits, some_nodes)

module _ (cmp : List ℕ → List ℕ → Side) (p : Bytes) (key : List ℕ) (pos : 0 < count p) where
  -- The first key of a leaf that is not less.
  pub search_page-leaf :
      HasNodes compare_bytes p 0
      → is_branch_page p ≡ false
      → (r : ℕ) × (search_page cmp true p key ≡ ok (some r))
        × IsLowerBound (λ i. compare_bytes key (key_bytes p i)) (count p) r
  search_page-leaf v no_branch =
      let keys : HasKeys p (count p) = record {
        inside = v.inside;
        ascending = λ i j h k. v.ascending i j (omega arith) h k;
      } in
      let (r, run, bound) = binary_search_leaf_n_lem p (count p) keys key pos in
      (
        r,
        by_asm cmp p key v.header_fits pos ∙ leaf_asm cmp p key v.header_fits no_branch ∙ run,
        bound,
      )

  -- The last child of a branch page whose separator is not greater.
  pub search_page-branch :
      HasNodes compare_bytes p 1
      → is_branch_page p ≡ true
      → (r : ℕ) × (search_page cmp true p key ≡ ok (some r)) × FindsChild compare_bytes p key r
  search_page-branch v branch =
      let side = answer compare_bytes bytes-IsOrder p 1 v key in
      let at = answer-at compare_bytes bytes-IsOrder p 1 v key in
      let (r, run, (lt, before, behind)) =
        search_branch-IsChildFor (λ i. ok (side i)) side (count p) (λ i h. refl)
          (falls compare_bytes bytes-IsOrder p 1 v key) pos in
      (
        r,
        by_asm cmp p key v.header_fits pos
            ∙ branch_asm cmp p key v.header_fits branch
            ∙ search_branch_congr (λ i. get_key_and_compare p i key) (λ i. ok (side i)) (count p)
                (λ i one h. compare_key p key i (v.inside i h) ∙ ap ok (sym (at i one)))
            ∙ run,
        (
          lt,
          λ i one h e. before i one h (at i one ∙ e),
          λ i low h. sym (at i (omega arith)) ∙ behind i low h,
        ),
      )
