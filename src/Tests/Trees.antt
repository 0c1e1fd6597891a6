-- ===== src/Tests/Trees.antt =====
-- A tree of a branch page and two leaves, and runs of the lookups and of cursors on it.
use gdbx.Base.{ℕ, zero, suc, ◌≤◌, ◌<◌, ◌≡◌, ◌≢◌, refl, subst, List, [], ◌∷◌, none, arith}
use gdbx.Bytes.{Bytes, read}
use gdbx.Page.Header.{flag_set}
use gdbx.Page.Shape.{count}
use gdbx.Node.Reads.{InTable}
use gdbx.Node.Variants.{HasKey, key_bytes}
use gdbx.Search.Order.{less, same, compare_bytes, compare_bytes-same}
use gdbx.Txn.Mapping.{ReadTxn}
use gdbx.Txn.Get.{direct_get_read_only}
use gdbx.Txn.GetFast.{direct_get_read_only_fast}
use gdbx.Txn.Trees.{HasNodes, page_at, child_of, IsAt, IsBetween, IsTree}
use gdbx.Txn.Agree.{HasData}
use gdbx.Txn.FastTree.{bytes-IsOrder, IsStored, direct_get_read_only_fast-eq}
use gdbx.Txn.Refine.{Looks, direct_get_read_only-IsAt}
use gdbx.Tests.Data.{of_list}

-- Three pages of 48 bytes: the leaf of the key 3, the leaf of the keys 7 and 8, and the branch page.
abbrev pub three_pages : Bytes
three_pages = of_list (
    0 ∷ 0 ∷ 0 ∷ 0 ∷ 0 ∷ 0 ∷ 0 ∷ 0 ∷ 0 ∷ 0 ∷ 2 ∷ 0 ∷ 2 ∷ 0 ∷ 18 ∷ 0 ∷ 0 ∷ 0 ∷ 0 ∷ 0 ∷ 18 ∷ 0 ∷ 0 ∷ 0
    ∷ 0 ∷ 0 ∷ 0 ∷ 0 ∷ 0 ∷ 0 ∷ 0 ∷ 0 ∷ 0 ∷ 0 ∷ 0 ∷ 0 ∷ 0 ∷ 0 ∷ 1 ∷ 0 ∷ 0 ∷ 0 ∷ 0 ∷ 0 ∷ 1 ∷ 0 ∷ 3 ∷ 9
    ∷ 0 ∷ 0 ∷ 0 ∷ 0 ∷ 0 ∷ 0 ∷ 0 ∷ 0 ∷ 0 ∷ 0 ∷ 2 ∷ 0 ∷ 4 ∷ 0 ∷ 8 ∷ 0 ∷ 0 ∷ 0 ∷ 0 ∷ 0 ∷ 18 ∷ 0 ∷ 8 ∷ 0
    ∷ 0 ∷ 0 ∷ 0 ∷ 0 ∷ 1 ∷ 0 ∷ 0 ∷ 0 ∷ 0 ∷ 0 ∷ 1 ∷ 0 ∷ 8 ∷ 6 ∷ 1 ∷ 0 ∷ 0 ∷ 0 ∷ 0 ∷ 0 ∷ 1 ∷ 0 ∷ 7 ∷ 8
    ∷ 0 ∷ 0 ∷ 0 ∷ 0 ∷ 0 ∷ 0 ∷ 0 ∷ 0 ∷ 0 ∷ 0 ∷ 1 ∷ 0 ∷ 4 ∷ 0 ∷ 11 ∷ 0 ∷ 0 ∷ 0 ∷ 0 ∷ 0 ∷ 20 ∷ 0 ∷ 11
    ∷ 0 ∷ 0 ∷ 0 ∷ 0 ∷ 0 ∷ 0 ∷ 0 ∷ 0 ∷ 1 ∷ 0 ∷ 0 ∷ 0 ∷ 0 ∷ 0 ∷ 1 ∷ 0 ∷ 7 ∷ 0 ∷ 0 ∷ 0 ∷ 0 ∷ 0 ∷ 0 ∷ 0
    ∷ 0 ∷ [])

abbrev pub txn : ReadTxn
txn = record { mmap_data = three_pages; page_bytes = 48; env_map = none }

in_table : (g i : ℕ) → g < 3 → i < count (page_at txn g) → InTable (page_at txn g) i
in_table zero zero b h = record {
  counted = h;
  table_fits = omega arith;
  addressable = omega arith;
  reachable = omega arith;
}
in_table (suc zero) zero b h = record {
  counted = h;
  table_fits = omega arith;
  addressable = omega arith;
  reachable = omega arith;
}
in_table (suc zero) (suc zero) b h = record {
  counted = h;
  table_fits = omega arith;
  addressable = omega arith;
  reachable = omega arith;
}
in_table (suc (suc zero)) zero b h = record {
  counted = h;
  table_fits = omega arith;
  addressable = omega arith;
  reachable = omega arith;
}
in_table (suc (suc zero)) (suc zero) b h = record {
  counted = h;
  table_fits = omega arith;
  addressable = omega arith;
  reachable = omega arith;
}
in_table zero (suc i) b h = absurd (omega arith)
in_table (suc zero) (suc (suc i)) b h = absurd (omega arith)
in_table (suc (suc zero)) (suc (suc i)) b h = absurd (omega arith)
in_table (suc (suc (suc g))) i b h = absurd (omega arith)

pub has_key : (g i : ℕ) → g < 3 → i < count (page_at txn g) → HasKey (page_at txn g) i
has_key zero zero b h = record { table = in_table 0 0 b h; key_fits = omega arith }
has_key (suc zero) zero b h = record { table = in_table 1 0 b h; key_fits = omega arith }
has_key (suc zero) (suc zero) b h = record { table = in_table 1 1 b h; key_fits = omega arith }
has_key (suc (suc zero)) zero b h = record { table = in_table 2 0 b h; key_fits = omega arith }
has_key (suc (suc zero)) (suc zero) b h = record {
  table = in_table 2 1 b h;
  key_fits = omega arith;
}
has_key zero (suc i) b h = absurd (omega arith)
has_key (suc zero) (suc (suc i)) b h = absurd (omega arith)
has_key (suc (suc zero)) (suc (suc i)) b h = absurd (omega arith)
has_key (suc (suc (suc g))) i b h = absurd (omega arith)

second_ascending :
    (i j : ℕ)
    → i < j
    → j < 2
    → compare_bytes (key_bytes (page_at txn 1) i) (key_bytes (page_at txn 1) j) ≡ less
unfolding compare_bytes read
second_ascending zero (suc zero) h k = refl
second_ascending zero zero h k = absurd (omega arith)
second_ascending (suc i) (suc zero) h k = absurd (omega arith)
second_ascending (suc i) zero h k = absurd (omega arith)
second_ascending i (suc (suc j)) h k = absurd (omega arith)

nodes :
    (g first : ℕ)
    → g < 3
    → ((i j : ℕ)
        → first ≤ i
        → i < j
        → j < count (page_at txn g)
        → compare_bytes (key_bytes (page_at txn g) i) (key_bytes (page_at txn g) j) ≡ less)
    → HasNodes compare_bytes (page_at txn g) first
nodes g first b ascending = record {
  header_fits = omega arith;
  inside = λ i h. has_key g i b h;
  reached = λ i h. let k = has_key g i b h in omega (arith, k.key_fits);
  ascending = ascending;
}

first_keys :
    (i : ℕ)
    → i < 1
    → compare_bytes (key_bytes (page_at txn 0) i) (key_bytes (page_at txn 2) 1) ≡ less
unfolding compare_bytes read
first_keys zero h = refl
first_keys (suc i) h = absurd (omega arith)

second_keys :
    (i : ℕ)
    → i < 2
    → compare_bytes (key_bytes (page_at txn 1) i) (key_bytes (page_at txn 2) 1) ≢ less
unfolding compare_bytes read
second_keys zero h = λ e. cc
second_keys (suc zero) h = λ e. cc
second_keys (suc (suc i)) h = absurd (omega arith)

key_of :
    (g : ℕ) (key : List ℕ) (q : Bytes) (i : ℕ)
    → IsAt compare_bytes txn 0 g key q i
    → (i < count (page_at txn g)) × (key ≡ key_bytes (page_at txn g) i)
key_of g key q i (page, h, s) = (
  subst (λ x. i < count x) page h,
  compare_bytes-same key (key_bytes (page_at txn g) i)
      (subst (λ x. compare_bytes key (key_bytes x i) ≡ same) page s),
)

below_root :
    (j : ℕ)
    → j < 2
    → IsTree compare_bytes txn 0 (child_of (page_at txn 2) j)
      × IsBetween compare_bytes txn 0 (page_at txn 2) j
unfolding flag_set
below_root zero h = (
  (omega arith, refl, refl, nodes 0 0 (omega arith) (λ i j low lt b. absurd (omega arith))),
  λ key q i a.
      let (b, e) = key_of 0 key q i a in
      (λ some_key. absurd (omega arith), λ more. rw e (first_keys i b)),
)
below_root (suc zero) h = (
  (omega arith, refl, refl, nodes 1 0 (omega arith) (λ i j low lt b. second_ascending i j lt b)),
  λ key q i a.
      let (b, e) = key_of 1 key q i a in
      (λ some_key. rw e (second_keys i b), λ more. absurd (omega arith)),
)
below_root (suc (suc j)) h = absurd (omega arith)

pub tree : IsTree compare_bytes txn 1 2
unfolding flag_set
tree = (
  omega arith,
  refl,
  refl,
  nodes 2 1 (omega arith) (λ i j low lt b. absurd (omega arith)),
  omega arith,
  below_root,
)

leaf_data : (g i : ℕ) → g < 2 → i < count (page_at txn g) → HasData (page_at txn g) i
unfolding flag_set
leaf_data zero zero b h = omega arith
leaf_data (suc zero) zero b h = omega arith
leaf_data (suc zero) (suc zero) b h = omega arith
leaf_data zero (suc i) b h = absurd (omega arith)
leaf_data (suc zero) (suc (suc i)) b h = absurd (omega arith)
leaf_data (suc (suc g)) i b h = absurd (omega arith)

stored : IsStored txn 1 2
stored zero h = λ i b. leaf_data 0 i (omega arith) b
stored (suc zero) h = λ i b. leaf_data 1 i (omega arith) b
stored (suc (suc j)) h = absurd (omega arith)

direct_get_read_only-IsAt_example : Looks compare_bytes txn (7 ∷ []) 1 2
direct_get_read_only-IsAt_example =
    direct_get_read_only-IsAt compare_bytes bytes-IsOrder txn (7 ∷ []) 1 2 tree

direct_get_read_only_fast-eq_example :
    direct_get_read_only_fast txn 2 2 (7 ∷ []) ≡ direct_get_read_only compare_bytes txn 2 2 (7 ∷ [])
direct_get_read_only_fast-eq_example = direct_get_read_only_fast-eq txn (7 ∷ []) 1 2 tree stored
