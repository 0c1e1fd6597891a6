-- ===== src/Tests/Nodes.antt =====
-- The accessors of nodes and the searches at concrete pages.
use gdbx.Base.{ℕ, zero, suc, ◌<◌, ◌≡◌, refl, [], ◌∷◌, arith, ok, panic, some}
use gdbx.Bytes.{read}
use gdbx.Page.Header.{flag_set}
use gdbx.Node.Direct.{
  node_get_key_direct, node_get_data_direct, node_get_child_pgno_direct, node_get_flags_direct,
}
use gdbx.Node.Raw.{node_get_key_raw, node_get_data_raw, node_get_child_pgno_raw, node_get_flags_raw}
use gdbx.Node.Unchecked.{
  node_get_key_unchecked, node_get_data_unchecked, node_get_child_pgno_unchecked,
  node_get_flags_unchecked,
}
use gdbx.Node.Fast.{
  node_get_key_fast, node_get_data_fast, node_get_child_pgno_fast, node_get_flags_fast,
}
use gdbx.Node.Reads.{InTable}
use gdbx.Node.Variants.{
  HasKey, key_bytes, key_accessors, key_at_64k_end, data_accessors, child_and_flags_accessors,
}
use gdbx.Search.{binary_search_leaf_n, binary_search_branch_n}
use gdbx.Search.Order.{less, compare_bytes}
use gdbx.Search.Bounds.{IsLowerBound, IsChildFor}
use gdbx.Search.Pages.{HasKeys, binary_search_leaf_n_lem, binary_search_branch_n_lem}
use gdbx.Tests.Data.{leaf, big_leaf, largest_leaf}

in_table : (i : ℕ) → i < 2 → InTable leaf i
in_table zero h = record {
  counted = omega arith;
  table_fits = omega arith;
  addressable = omega arith;
  reachable = omega arith;
}
in_table (suc zero) h = record {
  counted = omega arith;
  table_fits = omega arith;
  addressable = omega arith;
  reachable = omega arith;
}
in_table (suc (suc i)) h = absurd (omega arith)

has_key : (i : ℕ) → i < 2 → HasKey leaf i
has_key zero h = record { table = in_table zero h; key_fits = omega arith }
has_key (suc zero) h = record { table = in_table (suc zero) h; key_fits = omega arith }
has_key (suc (suc i)) h = absurd (omega arith)

ascending : (i j : ℕ) → i < j → j < 2 → compare_bytes (key_bytes leaf i) (key_bytes leaf j) ≡ less
unfolding compare_bytes read
ascending zero (suc zero) h k = refl
ascending zero zero h k = absurd (omega arith)
ascending (suc i) (suc zero) h k = absurd (omega arith)
ascending (suc i) zero h k = absurd (omega arith)
ascending i (suc (suc j)) h k = absurd (omega arith)

leaf-HasKeys : HasKeys leaf 2
leaf-HasKeys = record { inside = has_key; ascending = ascending }

big : HasKey big_leaf 0
big = record {
  table = record {
    counted = omega arith;
    table_fits = omega arith;
    addressable = omega arith;
    reachable = omega arith;
  };
  key_fits = omega arith;
}

largest : HasKey largest_leaf 0
largest = record {
  table = record {
    counted = omega arith;
    table_fits = omega arith;
    addressable = omega arith;
    reachable = omega arith;
  };
  key_fits = omega arith;
}

key_accessors_example :
    (node_get_key_direct leaf 1 ≡ ok (some (7 ∷ [])))
    × (node_get_key_raw leaf 1 ≡ ok (some (7 ∷ [])))
    × (node_get_key_unchecked leaf 1 ≡ ok (7 ∷ []))
    × (node_get_key_fast leaf 1 ≡ ok (7 ∷ []))
unfolding read
key_accessors_example = key_accessors leaf 1 (has_key 1 (omega arith)) (omega arith)

key_at_64k_end_example :
    (node_get_key_direct largest_leaf 0 ≡ panic)
    × (node_get_key_fast largest_leaf 0 ≡ panic)
    × (node_get_key_raw largest_leaf 0 ≡ ok (some (7 ∷ [])))
    × (node_get_key_unchecked largest_leaf 0 ≡ ok (7 ∷ []))
unfolding read
key_at_64k_end_example = key_at_64k_end largest_leaf 0 largest (omega arith) (omega arith)

data_accessors_example :
    (node_get_data_direct leaf 1 ≡ ok (some (8 ∷ [])))
    × (node_get_data_raw leaf 1 ≡ ok (some (8 ∷ [])))
    × (node_get_data_unchecked leaf 1 ≡ ok (8 ∷ []))
    × (node_get_data_fast leaf 1 ≡ ok (8 ∷ []))
unfolding read flag_set
data_accessors_example = data_accessors leaf 1 (has_key 1 (omega arith)) refl (omega arith)

child_and_flags_accessors_example :
    (node_get_child_pgno_direct big_leaf 0 ≡ ok 9000)
    × (node_get_child_pgno_raw big_leaf 0 ≡ ok 9000)
    × (node_get_child_pgno_unchecked big_leaf 0 ≡ ok 9000)
    × (node_get_child_pgno_fast big_leaf 0 ≡ ok 9000)
    × (node_get_flags_direct big_leaf 0 ≡ ok 1)
    × (node_get_flags_raw big_leaf 0 ≡ ok 1)
    × (node_get_flags_unchecked big_leaf 0 ≡ ok 1)
    × (node_get_flags_fast big_leaf 0 ≡ ok 1)
child_and_flags_accessors_example = child_and_flags_accessors big_leaf 0 big

binary_search_leaf_n_lem_example :
    (r : ℕ) × (binary_search_leaf_n leaf (5 ∷ []) 2 ≡ ok (some r))
    × IsLowerBound (λ i. compare_bytes (5 ∷ []) (key_bytes leaf i)) 2 r
binary_search_leaf_n_lem_example =
    binary_search_leaf_n_lem leaf 2 leaf-HasKeys (5 ∷ []) (omega arith)

binary_search_branch_n_lem_example :
    (r : ℕ) × (binary_search_branch_n leaf (5 ∷ []) 2 ≡ ok (some r))
    × IsChildFor (λ i. compare_bytes (5 ∷ []) (key_bytes leaf i)) 2 r
binary_search_branch_n_lem_example =
    binary_search_branch_n_lem leaf 2 leaf-HasKeys (5 ∷ []) (omega arith)
