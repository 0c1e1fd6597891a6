-- ===== src/Txn/FastTree.antt =====
-- `directGetReadOnlyFast` on a tree returns what `directGetReadOnly` does.
use native.Mathlib.Decide.{ℕ_discrete}
use gdbx.Base.{
  ℕ, zero, suc, ◌+◌, ◌-◌, ◌*◌, ◌≤◌, ◌<◌, ◌≡◌, sym, ap, ◌∙◌, Bool, true, false, ◌==◌, gt→leb, List,
  arith, ok, none, some, Option, inl, inr,
}
use gdbx.Bytes.Loads.{load16_ok, load32_ok}
use gdbx.Page.Shape.{count}
use gdbx.Node.Reads.{node_offset}
use gdbx.Node.Variants.{key_bytes, child_and_flags_accessors}
use gdbx.Search.{Outcome, hit, gap, spent, search_loop, get_key_and_compare}
use gdbx.Search.Order.{compare_bytes, compare_bytes_trans, compare_bytes-same}
use gdbx.Search.Loop.{Ends, side-cases}
use gdbx.Txn.Mapping.{ReadTxn}
use gdbx.Txn.Get.{probe, leaf_exact, branch_exact, search_page_raw_exact, direct_get_read_only}
use gdbx.Txn.Trees.{
  IsOrder, HasNodes, page_at, child_of, IsTree, is_leaf_page, is_branch_page, page_slice-page_at,
  leaf_direct, probe-ok,
}
use gdbx.Txn.Lookup.{
  search_loop_congr, loop-Ends, answer, raw_empty, raw_leaf, raw_only_child, raw_branch,
  branch_found,
}
use gdbx.Txn.Refine.{get_leaf, get_branch}
use gdbx.Txn.GetFast.{
  mapped_from, fast_child, fast_branch, fast_found, fast_leaf, direct_get_read_only_fast,
}
use gdbx.Txn.Agree.{HasData, inside, compare-ok, fast_value-eq}

pub bytes-IsOrder : IsOrder compare_bytes
bytes-IsOrder = record {
  less_trans = compare_bytes_trans;
  same_less = λ a b c e h. rw (compare_bytes-same a b e) h;
}

abbrev index_of : Option (ℕ × Bool) → Option ℕ
index_of none = none
index_of (some (idx, exact)) = some idx

-- The data of each node of a leaf stand where the node says.
abbrev pub IsStored : ReadTxn → ℕ → ℕ → Type 0
IsStored t zero g = (i : ℕ) → i < count (page_at t g) → HasData (page_at t g) i
IsStored t (suc h) g = (j : ℕ) → j < count (page_at t g) → IsStored t h (child_of (page_at t g) j)

module _ (t : ReadTxn) (key : List ℕ) (g : ℕ)
    (fits : g * t.page_bytes + t.page_bytes ≤ t.mmap_data.size) where
  -- The two loops over the page's keys.
  same_loop :
      (first : ℕ)
      → HasNodes compare_bytes (page_at t g) first
      → search_loop
          (λ i. get_key_and_compare (mapped_from t g) i key)
          (count (page_at t g) + 1)
          first
          (count (page_at t g))
        ≡ search_loop
            (probe compare_bytes (page_at t g) key)
            (count (page_at t g) + 1)
            first
            (count (page_at t g))
  same_loop first v =
      search_loop_congr (λ i. get_key_and_compare (mapped_from t g) i key)
        (probe compare_bytes (page_at t g) key) (count (page_at t g) + 1) first
        (count (page_at t g))
        (λ i le lt.
          compare-ok t g fits key i (v.inside i lt)
          ∙ sym (probe-ok compare_bytes (page_at t g) first v key i lt))

  -- The value that a leaf's loop leads to.
  found-eq :
      (v : HasNodes compare_bytes (page_at t g) 0) (o : Outcome)
      → ((i : ℕ) → i < count (page_at t g) → HasData (page_at t g) i)
      → is_leaf_page (page_at t g) ≡ true
      → Ends (answer compare_bytes bytes-IsOrder (page_at t g) 0 v key) 0 (count (page_at t g)) o
      → search_page_raw_exact compare_bytes (page_at t g) key ≡ ok (leaf_exact o)
      → fast_found t (mapped_from t g) o ≡ direct_get_read_only compare_bytes t 1 g key
  unfolding fast_found
  found-eq v (hit m) stored leaf (a, b, e) found =
      rw (fast_value-eq t g fits m (v.inside m b) (stored m b)) (
        sym (
          get_leaf compare_bytes t key g 0 m true (page_slice-page_at compare_bytes t g fits) found
            (leaf_direct (page_at t g) v.header_fits ∙ ap ok leaf)))
  found-eq v (gap l) stored leaf ends found = sym (
      get_leaf compare_bytes t key g 0 l false (page_slice-page_at compare_bytes t g fits) found
        (leaf_direct (page_at t g) v.header_fits ∙ ap ok leaf))
  found-eq v spent stored leaf ends found = absurd ends

  -- The two header fields, and the leaf's part of the loop.
  enters_leaf :
      20 ≤ t.page_bytes
      → is_leaf_page (page_at t g) ≡ true
      → (fuel : ℕ)
      → direct_get_read_only_fast t (suc fuel) g key
        ≡ fast_leaf t (mapped_from t g) (count (page_at t g)) key
  unfolding direct_get_read_only_fast
  enters_leaf small leaf fuel =
      let room = inside t g fits in
      rw (
        load16_ok (mapped_from t g) 10 (omega (arith, small, room)),
        load16_ok (mapped_from t g) 12 (omega (arith, small, room)),
        leaf,
      )

  leaf-eq :
      (v : HasNodes compare_bytes (page_at t g) 0)
      → is_leaf_page (page_at t g) ≡ true
      → is_branch_page (page_at t g) ≡ false
      → ((i : ℕ) → i < count (page_at t g) → HasData (page_at t g) i)
      → fast_leaf t (mapped_from t g) (count (page_at t g)) key
        ≡ direct_get_read_only compare_bytes t 1 g key
  unfolding fast_leaf
  leaf-eq v leaf no_branch stored = elim (ℕ_discrete (count (page_at t g)) 0) [
    | yes z ↦ rw z (
        sym (
          get_leaf compare_bytes t key g 0 0 false (page_slice-page_at compare_bytes t g fits)
            (raw_empty compare_bytes bytes-IsOrder (page_at t g) key 0 v z)
            (leaf_direct (page_at t g) v.header_fits ∙ ap ok leaf)))
    | no nz ↦
        let (o, run, ends) =
          loop-Ends compare_bytes bytes-IsOrder (page_at t g) 0 v key (omega arith) in
        let some_keys : (count (page_at t g) == 0) ≡ false = ground arith in
        rw (some_keys, same_loop 0 v, run)
          (found-eq v o stored leaf ends (
            raw_leaf compare_bytes bytes-IsOrder (page_at t g) key v o no_branch (omega arith) run))
  ]

  -- Comparing again below the first separator changes nothing.
  child-eq :
      (v : HasNodes compare_bytes (page_at t g) 1) (o : Outcome) (idx : ℕ) (exact : Bool)
      → 1 < count (page_at t g)
      → branch_exact o ≡ some (idx, exact)
      → fast_child (λ i. get_key_and_compare (mapped_from t g) i key) o ≡ ok (some idx)
  unfolding fast_child
  child-eq v (hit m) idx exact two e = ap (λ x. ok (index_of x)) e
  child-eq v (gap l) idx exact two e =
      let same_index : ok (some (l - 1)) ≡ ok (some idx) = ap (λ x. ok (index_of x)) e in
      elim (ℕ_discrete l 1) [
        | yes q ↦
            let zeroth : ok (some 0) ≡ ok (some idx) =
              ap (λ x. ok (some (x - 1))) (sym q) ∙ same_index in
            rw (q, compare-ok t g fits key 1 (v.inside 1 two))
              (elim (side-cases (compare_bytes key (key_bytes (page_at t g) 1))) [
                | inl s ↦ rw s zeroth
                | inr (inl s) ↦ rw s same_index
                | inr (inr s) ↦ rw s same_index
              ])
        | no q ↦ let apart : (l == 1) ≡ false = ground arith in rw apart same_index
      ]
  child-eq v spent idx exact two e = absurd (cc)

  -- The child that both lookups take.
  branch_child :
      (v : HasNodes compare_bytes (page_at t g) 1)
      → is_branch_page (page_at t g) ≡ true
      → 0 < count (page_at t g)
      → (idx : ℕ) × (exact : Bool) × (idx < count (page_at t g))
        × (search_page_raw_exact compare_bytes (page_at t g) key ≡ ok (some (idx, exact)))
        × (fast_branch (mapped_from t g) (count (page_at t g)) key ≡ ok (some idx))
  unfolding fast_branch
  branch_child v branch pos = elim (ℕ_discrete (count (page_at t g)) 1) [
    | yes one ↦ (
      0,
      false,
      pos,
      raw_only_child compare_bytes bytes-IsOrder (page_at t g) key v branch one,
      rw one,
    )
    | no many ↦
        let two : 1 < count (page_at t g) = omega arith in
        let (o, run, ends) = loop-Ends compare_bytes bytes-IsOrder (page_at t g) 1 v key pos in
        let (idx, exact, result, means) =
          branch_found compare_bytes bytes-IsOrder (page_at t g) key v o two ends in
        (
          idx,
          exact,
          means.0,
          raw_branch compare_bytes bytes-IsOrder (page_at t g) key v o branch two run
              ∙ ap ok result,
          rw (gt→leb (count (page_at t g)) 1 two, same_loop 1 v, run)
              (child-eq v o idx exact two result),
        )
  ]

  enters_child :
      (idx fuel : ℕ)
      → (v : HasNodes compare_bytes (page_at t g) 1) → is_leaf_page (page_at t g) ≡ false
      → idx < count (page_at t g)
      → fast_branch (mapped_from t g) (count (page_at t g)) key ≡ ok (some idx)
      → direct_get_read_only_fast t (suc fuel) g key
        ≡ direct_get_read_only_fast t fuel (child_of (page_at t g) idx) key
  unfolding direct_get_read_only_fast
  enters_child idx fuel v no_leaf lt found =
      let room = inside t g fits in
      let k = v.inside idx lt in
      rw (
        load16_ok (mapped_from t g) 10 (omega (arith, v.header_fits, room)),
        load16_ok (mapped_from t g) 12 (omega (arith, v.header_fits, room)),
        no_leaf,
        found,
        load16_ok (mapped_from t g) (20 + idx * 2)
            (omega (arith, k.table.table_fits, k.table.counted, room)),
        load32_ok (mapped_from t g) (node_offset (page_at t g) idx)
            (omega (arith, k.key_fits, room)),
      )

-- In a tree of height h with the keys in the order of `bytes.Compare`, where the data of each leaf's
-- nodes stand in their page, with fuel for h + 1 pages, `directGetReadOnlyFast` returns what
-- `directGetReadOnly` returns with that comparison.
pub direct_get_read_only_fast-eq :
    (t : ReadTxn) (key : List ℕ) (h g : ℕ)
    → IsTree compare_bytes t h g
    → IsStored t h g
    → direct_get_read_only_fast t (suc h) g key ≡ direct_get_read_only compare_bytes t (suc h) g key
direct_get_read_only_fast-eq t key zero g (fits, leaf, no_branch, v) stored =
    enters_leaf t key g fits v.header_fits leaf 0 ∙ leaf-eq t key g fits v leaf no_branch stored
direct_get_read_only_fast-eq t key (suc h) g (fits, no_leaf, branch, v, pos, below) stored =
    let (idx, exact, lt, found, found') = branch_child t key g fits v branch pos in
    enters_child t key g fits idx (suc h) v no_leaf lt found'
    ∙ direct_get_read_only_fast-eq t key h (child_of (page_at t g) idx) (below idx lt).0
        (stored idx lt)
    ∙ sym (
        get_branch compare_bytes t key g (suc h) idx (child_of (page_at t g) idx) exact
          (page_slice-page_at compare_bytes t g fits) found
          (leaf_direct (page_at t g) v.header_fits ∙ ap ok no_leaf)
          (child_and_flags_accessors (page_at t g) idx (v.inside idx lt)).2)
