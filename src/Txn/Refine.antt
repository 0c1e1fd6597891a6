-- ===== src/Txn/Refine.antt =====
-- `directGetReadOnly` against the keys that a tree holds.
use gdbx.Base.{
  ℕ, zero, suc, ◌+◌, ◌<◌, ◌≡◌, refl, ap, subst, ◌∙◌, Bool, true, false, if◌then◌else◌, List, arith,
  ok, ◌>>=◌, some, inl, inr, ◌⊎◌,
}
use gdbx.Bytes.{Bytes}
use gdbx.Page.Header.{page_is_leaf_direct}
use gdbx.Page.Shape.{count, position}
use gdbx.Node.Variants.{key_bytes, child_and_flags_accessors}
use gdbx.Node.Unchecked.{node_get_child_pgno_unchecked}
use gdbx.Search.Order.{Side, same}
use gdbx.Txn.Mapping.{not_found, ReadTxn, page_slice}
use gdbx.Txn.Get.{search_page_raw_exact, node_value, direct_get_read_only}
use gdbx.Txn.Trees.{
  IsOrder, page_at, child_of, IsAt, IsTree, IsBetween, page_slice-page_at, leaf_direct,
}
use gdbx.Txn.Lookup.{FindsLeaf, FindsChild, search_leaf_page, search_branch_page}

module _ (cmp : List ℕ → List ℕ → Side) (t : ReadTxn) (key : List ℕ) where
  -- Where the key is in the tree, and what the lookup returns, or that it is nowhere.
  abbrev pub Looks : ℕ → ℕ → Type 0
  Looks h g =
      ((q : Bytes) × (i : ℕ) × IsAt cmp t h g key q i
        × (direct_get_read_only cmp t (suc h) g key ≡ (node_value t q i >>= λ x. ok (some x))))
      ⊎ (((q : Bytes) (i : ℕ) → ¬ IsAt cmp t h g key q i)
          × (direct_get_read_only cmp t (suc h) g key ≡ ok (some not_found)))

  pub get_leaf :
      (g fuel idx : ℕ) (exact : Bool)
      → page_slice t.mmap_data t.page_bytes g ≡ ok (page_at t g)
      → search_page_raw_exact cmp (page_at t g) key ≡ ok (some (idx, exact))
      → page_is_leaf_direct (page_at t g) ≡ ok true
      → direct_get_read_only cmp t (suc fuel) g key ≡ (
          if exact
          then (node_value t (page_at t g) idx >>= λ x. ok (some x))
          else ok (some not_found))
  unfolding direct_get_read_only
  get_leaf g fuel idx exact e f k = rw (e, f, k)

  pub get_branch :
      (g fuel idx child : ℕ) (exact : Bool)
      → page_slice t.mmap_data t.page_bytes g ≡ ok (page_at t g)
      → search_page_raw_exact cmp (page_at t g) key ≡ ok (some (idx, exact))
      → page_is_leaf_direct (page_at t g) ≡ ok false
      → node_get_child_pgno_unchecked (page_at t g) idx ≡ ok child
      → direct_get_read_only cmp t (suc fuel) g key ≡ direct_get_read_only cmp t fuel child key
  unfolding direct_get_read_only
  get_branch g fuel idx child exact e f k c = rw (e, f, k, c)

module _ (cmp : List ℕ → List ℕ → Side) (order : IsOrder cmp) (t : ReadTxn) (key : List ℕ) where
  leaf-Looks :
      (g idx : ℕ) (exact : Bool)
      → direct_get_read_only cmp t 1 g key ≡ (
          if exact
          then (node_value t (page_at t g) idx >>= λ x. ok (some x))
          else ok (some not_found))
      → FindsLeaf cmp (page_at t g) key idx exact
      → Looks cmp t key 0 g
  leaf-Looks g idx true e (h, s) = inl (page_at t g, idx, (refl, h, s), e)
  leaf-Looks g idx false e none_same = inr (
    λ q i (page, h, s).
        none_same i (subst (λ x. i < count x) page h)
          (subst (λ x. cmp key (key_bytes x i) ≡ same) page s),
    e,
  )

  -- A key below another child than the one that the search takes would be out of that child's range.
  only_child :
      (h g r j : ℕ) (q : Bytes) (i : ℕ)
      → FindsChild cmp (page_at t g) key r
      → j < count (page_at t g)
      → IsBetween cmp t h (page_at t g) j
      → IsAt cmp t h (child_of (page_at t g) j) key q i
      → j ≡ r
  only_child h g r j q i (lt, before, after) k between a =
      let (low, high) = between key q i a in
      elim (position j r) [
        | inl b ↦ absurd (before (j + 1) (omega arith) (omega arith) (high (omega arith)))
        | inr (inl e) ↦ e
        | inr (inr (m, e, b)) ↦ absurd (low (omega arith) (after j (omega arith) k))
      ]

  -- In a tree of height h whose keys are ordered, with fuel for h + 1 pages, `directGetReadOnly`
  -- returns the value of a node of a leaf below the root whose key compares equal, or, where no such
  -- node has it, the error that it was not found.
  pub direct_get_read_only-IsAt : (h g : ℕ) → IsTree cmp t h g → Looks cmp t key h g
  direct_get_read_only-IsAt zero g (fits, leaf, no_branch, v) =
      let (idx, exact, found, means) = search_leaf_page cmp order (page_at t g) key v no_branch in
      leaf-Looks g idx exact
        (get_leaf cmp t key g 0 idx exact (page_slice-page_at cmp t g fits) found
          (leaf_direct (page_at t g) v.header_fits ∙ ap ok leaf))
        means
  direct_get_read_only-IsAt (suc h) g (fits, no_leaf, branch, v, pos, below) =
      let (idx, exact, found, means) =
        search_branch_page cmp order (page_at t g) key v branch pos in
      let step : direct_get_read_only cmp t (suc (suc h)) g key
          ≡ direct_get_read_only cmp t (suc h) (child_of (page_at t g) idx) key =
        get_branch cmp t key g (suc h) idx (child_of (page_at t g) idx) exact
          (page_slice-page_at cmp t g fits) found
          (leaf_direct (page_at t g) v.header_fits ∙ ap ok no_leaf)
          (child_and_flags_accessors (page_at t g) idx (v.inside idx means.0)).2 in
      elim (direct_get_read_only-IsAt h (child_of (page_at t g) idx) (below idx means.0).0) [
        | inl (q, i, a, e) ↦ inl (q, i, (idx, means.0, a), step ∙ e)
        | inr (nowhere, e) ↦ inr (
          λ q i (j, lt, a).
              let at_idx : j ≡ idx = only_child h g idx j q i means lt (below j lt).1 a in
              nowhere q i (subst (λ x. IsAt cmp t h (child_of (page_at t g) x) key q i) at_idx a),
          step ∙ e,
        )
      ]
