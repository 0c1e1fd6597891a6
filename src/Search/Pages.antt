-- ===== src/Search/Pages.antt =====
-- The two searches on a page whose keys ascend.
use gdbx.Base.{ℕ, ◌+◌, ◌*◌, ◌<◌, ◌≡◌, ◌≢◌, ap, sym, ◌∙◌, inl, inr, arith, ok, some, List}
use gdbx.Bytes.{Bytes}
use gdbx.Bytes.Loads.{load16_ok}
use gdbx.Node.Reads.{node_offset}
use gdbx.Node.Variants.{key_bytes, HasKey, key_slice}
use gdbx.Search.{get_key_and_compare, binary_search_leaf_n, binary_search_branch_n}
use gdbx.Search.Order.{
  Side, less, same, more, compare_bytes, compare_bytes-same, compare_bytes_trans,
  compare_bytes_refl,
}
use gdbx.Page.Shape.{position}
use gdbx.Search.Loop.{side-cases}
use gdbx.Search.Bounds.{
  IsLowerBound, IsChildFor, search_leaf-IsLowerBound, search_branch-IsChildFor,
}

-- The keys of the first `n` nodes stand in the page and ascend.
pub record HasKeys (p : Bytes) (n : ℕ) : Type 0 where
  pub inside : (i : ℕ) → i < n → HasKey p i
  pub ascending : (i j : ℕ) → i < j → j < n → compare_bytes (key_bytes p i) (key_bytes p j) ≡ less

-- A comparison with a key that stands in the page.
pub compare_key :
    (p : Bytes) (key : List ℕ) (i : ℕ)
    → HasKey p i
    → get_key_and_compare p i key ≡ ok (compare_bytes key (key_bytes p i))
unfolding get_key_and_compare
compare_key p key i k = rw (
  load16_ok p (20 + i * 2) (omega (arith, k.table.table_fits, k.table.counted)),
  load16_ok p (node_offset p i + 6) (omega (arith, k.key_fits)),
  key_slice p i k,
)

module _ (p : Bytes) (n : ℕ) (keys : HasKeys p n) (key : List ℕ) where
  side : ℕ → Side
  side i = compare_bytes key (key_bytes p i)

  get_key_and_compare-ok : (i : ℕ) → i < n → get_key_and_compare p i key ≡ ok (side i)
  unfolding side
  get_key_and_compare-ok i h = compare_key p key i (keys.inside i h)

  side_falls : (i j : ℕ) → i < j → j < n → side i ≢ more → side j ≡ less
  unfolding side
  side_falls i j h k ne = elim (side-cases (compare_bytes key (key_bytes p i))) [
    | inl e ↦ compare_bytes_trans key (key_bytes p i) (key_bytes p j) e (keys.ascending i j h k)
    | inr (inl e) ↦ rw (compare_bytes-same key (key_bytes p i) e) (keys.ascending i j h k)
    | inr (inr e) ↦ absurd (ne e)
  ]

  -- On a page whose first n keys stand in it and ascend, for n at least 1, `binarySearchLeafN` ends
  -- without a panic, and returns the number of keys that are less than the one sought: each key before
  -- the result is less, and none from it on is.
  pub binary_search_leaf_n_lem :
      0 < n
      → (r : ℕ) × (binary_search_leaf_n p key n ≡ ok (some r))
        × IsLowerBound (λ i. compare_bytes key (key_bytes p i)) n r
  unfolding binary_search_leaf_n side
  binary_search_leaf_n_lem =
      search_leaf-IsLowerBound (λ i. get_key_and_compare p i key) side n get_key_and_compare-ok
        side_falls

  only_place : (i r : ℕ) → i < n → side i ≡ same → IsLowerBound side n r → r ≡ i
  only_place i r h e (a, b, c) = elim (position i r) [
    | inl lt ↦ let y : side i ≡ more = b i lt in absurd (cc)
    | inr (inl eq) ↦ sym eq
    | inr (inr (j, eq, le)) ↦
        let y : side i ≡ less = side_falls r i (omega arith) h (c r (omega arith) (omega arith)) in
        absurd (cc)
  ]

  -- On a page whose first n keys stand in it and ascend, `binarySearchLeafN` returns the index of the
  -- key sought wherever it is one of them.
  pub binary_search_leaf_n_finds :
      (i : ℕ) → i < n → key_bytes p i ≡ key → binary_search_leaf_n p key n ≡ ok (some i)
  unfolding side
  binary_search_leaf_n_finds i h e =
      let (r, run, bound) = binary_search_leaf_n_lem (omega arith) in
      let found : compare_bytes key (key_bytes p i) ≡ same = rw e (compare_bytes_refl key) in
      run ∙ ap (λ x. ok (some x)) (only_place i r h found bound)

  -- On a page whose first n keys stand in it and ascend, for n at least 1, `binarySearchBranchN` ends
  -- without a panic, and returns the last child whose separator is not greater than the key; the first
  -- child has no separator.
  pub binary_search_branch_n_lem :
      0 < n
      → (r : ℕ) × (binary_search_branch_n p key n ≡ ok (some r))
        × IsChildFor (λ i. compare_bytes key (key_bytes p i)) n r
  unfolding binary_search_branch_n side
  binary_search_branch_n_lem =
      search_branch-IsChildFor (λ i. get_key_and_compare p i key) side n get_key_and_compare-ok
        side_falls
