-- ===== src/Tests/Data.antt =====
-- Concrete pages: a leaf of two nodes, a node to add, a branch page, and a leaf of the largest size.
use gdbx.Base.{
  ℕ, zero, suc, ◌+◌, ◌≤◌, ◌<◌, ◌==◌, if◌then◌else◌, List, [], ◌∷◌, arith, length, get_or,
}
use gdbx.Bytes.{Bytes}
use gdbx.Page.Shape.{HasLayout, IsPage, upper, offset_of}

abbrev pub of_list : List ℕ → Bytes
of_list xs = record { size = length xs; at = λ i. get_or xs i 0 }

abbrev pub first_node : List ℕ
first_node = 1 ∷ 0 ∷ 0 ∷ 0 ∷ 0 ∷ 0 ∷ 1 ∷ 0 ∷ 3 ∷ 9 ∷ []

abbrev pub new_node : List ℕ
new_node = 1 ∷ 0 ∷ 0 ∷ 0 ∷ 0 ∷ 0 ∷ 1 ∷ 0 ∷ 5 ∷ 6 ∷ []

-- Page 5, a leaf of 64 bytes with the keys 3 and 7, whose second node stands before the first.
abbrev pub leaf : Bytes
leaf = of_list (
    0 ∷ 0 ∷ 0 ∷ 0 ∷ 0 ∷ 0 ∷ 0 ∷ 0 ∷ 0 ∷ 0 ∷ 2 ∷ 0 ∷ 4 ∷ 0 ∷ 24 ∷ 0 ∷ 5 ∷ 0 ∷ 0 ∷ 0 ∷ 34 ∷ 0 ∷ 24 ∷ 0
    ∷ 0 ∷ 0 ∷ 0 ∷ 0 ∷ 0 ∷ 0 ∷ 0 ∷ 0 ∷ 0 ∷ 0 ∷ 0 ∷ 0 ∷ 0 ∷ 0 ∷ 0 ∷ 0 ∷ 0 ∷ 0 ∷ 0 ∷ 0 ∷ 1 ∷ 0 ∷ 0 ∷ 0
    ∷ 0 ∷ 0 ∷ 1 ∷ 0 ∷ 7 ∷ 8 ∷ first_node)

leaf_entries :
    (i : ℕ) → i < 2 → (upper leaf ≤ offset_of leaf i) × (offset_of leaf i + 20 ≤ leaf.size)
leaf_entries zero h = (omega arith, omega arith)
leaf_entries (suc zero) h = (omega arith, omega arith)
leaf_entries (suc (suc i)) h = absurd (omega arith)

pub leaf-HasLayout : HasLayout leaf
leaf-HasLayout = record {
  header_fits = omega arith;
  addressable = omega arith;
  whole_entries = omega arith;
  ordered = omega arith;
  bounded = omega arith;
}

pub leaf-IsPage : IsPage leaf
leaf-IsPage = record { layout = leaf-HasLayout; entries = leaf_entries }

-- A leaf with one big node: the key 4, and 9000 bytes of data on page 77.
abbrev pub big_leaf : Bytes
big_leaf = of_list (
    0 ∷ 0 ∷ 0 ∷ 0 ∷ 0 ∷ 0 ∷ 0 ∷ 0 ∷ 0 ∷ 0 ∷ 2 ∷ 0 ∷ 2 ∷ 0 ∷ 15 ∷ 0 ∷ 5 ∷ 0 ∷ 0 ∷ 0 ∷ 15 ∷ 0 ∷ 0 ∷ 0
    ∷ 0 ∷ 0 ∷ 0 ∷ 0 ∷ 0 ∷ 0 ∷ 0 ∷ 0 ∷ 0 ∷ 0 ∷ 0 ∷ 40 ∷ 35 ∷ 0 ∷ 0 ∷ 1 ∷ 0 ∷ 1 ∷ 0 ∷ 4 ∷ 77 ∷ 0 ∷ 0
    ∷ 0 ∷ [])

-- A leaf of 64 KB whose only node, with the key 7 and no data, ends with the page.
abbrev pub largest_byte : ℕ → ℕ
largest_byte i =
    if i == 12
    then 2
    else if i == 20
    then 227
    else if i == 21
    then 255
    else if i == 65533
    then 1
    else if i == 65535
    then 7
    else 0

abbrev pub largest_leaf : Bytes
largest_leaf = record { size = 65536; at = largest_byte }
