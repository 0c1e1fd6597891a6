-- ===== src/Txn/Trees.antt =====
-- A tree of pages in a mapping, and where it holds a key.
use gdbx.Base.{
  ℕ, zero, suc, ◌+◌, ◌*◌, ◌≤◌, ◌<◌, ◌≡◌, ◌≢◌, Bool, true, false, List, arith, ok, ge→ltb,
}
use gdbx.Bytes.{Bytes, word16}
use gdbx.Bytes.Loads.{load16_ok, slice_ok}
use gdbx.Page.Header.{
  page_header_size, page_leaf, page_branch, flag_set, page_is_leaf_direct, page_is_branch_direct,
  page_flags_direct,
}
use gdbx.Page.Entries.{page_num_entries_direct}
use gdbx.Page.Shape.{count}
use gdbx.Node.Fields.{node_size}
use gdbx.Node.Reads.{node_offset}
use gdbx.Node.Variants.{HasKey, key_bytes, data_length, key_unchecked}
use gdbx.Search.Order.{Side, less, same}
use gdbx.Txn.Mapping.{ReadTxn, page_slice}
use gdbx.Txn.Get.{probe}

-- What the lookups rely on in a comparison.
pub record IsOrder (cmp : List ℕ → List ℕ → Side) : Type 0 where
  pub less_trans : (a b c : List ℕ) → cmp a b ≡ less → cmp b c ≡ less → cmp a c ≡ less
  pub same_less : (a b c : List ℕ) → cmp a b ≡ same → cmp b c ≡ less → cmp a c ≡ less

-- The header and the nodes of a page stand in it, and the keys from index `first` on ascend.
pub record HasNodes (cmp : List ℕ → List ℕ → Side) (p : Bytes) (first : ℕ) : Type 0 where
  pub header_fits : page_header_size ≤ p.size
  pub inside : (i : ℕ) → i < count p → HasKey p i
  pub reached : (i : ℕ) → i < count p → node_offset p i + node_size < 65536
  pub ascending :
      (i j : ℕ) → first ≤ i → i < j → j < count p → cmp (key_bytes p i) (key_bytes p j) ≡ less

abbrev pub page_at : ReadTxn → ℕ → Bytes
page_at t g = record { size = t.page_bytes; at = λ i. t.mmap_data.at (g * t.page_bytes + i) }

abbrev pub child_of : Bytes → ℕ → ℕ
child_of p i = data_length p i

abbrev pub is_leaf_page : Bytes → Bool
is_leaf_page p = flag_set (word16 p.at 10) page_leaf

abbrev pub is_branch_page : Bytes → Bool
is_branch_page p = flag_set (word16 p.at 10) page_branch

module _ (cmp : List ℕ → List ℕ → Side) (t : ReadTxn) where
  -- Node `i` of the leaf `q`, below page `g` of height `h`, has the key.
  abbrev pub IsAt : ℕ → ℕ → List ℕ → Bytes → ℕ → Type 0
  IsAt zero g key q i = (q ≡ page_at t g) × (i < count q) × (cmp key (key_bytes q i) ≡ same)
  IsAt (suc h) g key q i =
      (j : ℕ) × (j < count (page_at t g)) × IsAt h (child_of (page_at t g) j) key q i

  -- The keys below child `j` are not less than its separator, and less than the next one.
  abbrev pub IsBetween : ℕ → Bytes → ℕ → Type 0
  IsBetween h p j =
      (key : List ℕ) (q : Bytes) (i : ℕ)
      → IsAt h (child_of p j) key q i
      → (1 ≤ j → cmp key (key_bytes p j) ≢ less)
        × (j + 1 < count p → cmp key (key_bytes p (j + 1)) ≡ less)

  -- A tree of height `h` below page `g`.
  abbrev pub IsTree : ℕ → ℕ → Type 0
  IsTree zero g =
      (g * t.page_bytes + t.page_bytes ≤ t.mmap_data.size)
      × (is_leaf_page (page_at t g) ≡ true)
      × (is_branch_page (page_at t g) ≡ false)
      × HasNodes cmp (page_at t g) 0
  IsTree (suc h) g =
      (g * t.page_bytes + t.page_bytes ≤ t.mmap_data.size)
      × (is_leaf_page (page_at t g) ≡ false)
      × (is_branch_page (page_at t g) ≡ true)
      × HasNodes cmp (page_at t g) 1
      × (0 < count (page_at t g))
      × ((j : ℕ)
          → j < count (page_at t g)
          → IsTree h (child_of (page_at t g) j) × IsBetween h (page_at t g) j)

  pub page_slice-page_at :
      (g : ℕ)
      → g * t.page_bytes + t.page_bytes ≤ t.mmap_data.size
      → page_slice t.mmap_data t.page_bytes g ≡ ok (page_at t g)
  unfolding page_slice
  page_slice-page_at g h =
      rw (slice_ok t.mmap_data (g * t.page_bytes) (g * t.page_bytes + t.page_bytes) (omega arith) h)

module _ (p : Bytes) (fits : page_header_size ≤ p.size) where
  pub flags_direct : page_flags_direct p ≡ ok (word16 p.at 10)
  unfolding page_flags_direct
  flags_direct = rw (ge→ltb p.size 20 fits, load16_ok p 10 (omega (arith, fits)))

  pub leaf_direct : page_is_leaf_direct p ≡ ok (is_leaf_page p)
  unfolding page_is_leaf_direct
  leaf_direct = rw flags_direct

  pub branch_direct : page_is_branch_direct p ≡ ok (is_branch_page p)
  unfolding page_is_branch_direct
  branch_direct = rw flags_direct

  pub count_direct : page_num_entries_direct p ≡ ok (count p)
  unfolding page_num_entries_direct
  count_direct = rw (ge→ltb p.size 20 fits, load16_ok p 12 (omega (arith, fits)))

pub probe-ok :
    (cmp : List ℕ → List ℕ → Side) (p : Bytes) (first : ℕ)
    → HasNodes cmp p first
    → (key : List ℕ) (i : ℕ) → i < count p
    → probe cmp p key i ≡ ok (cmp key (key_bytes p i))
unfolding probe
probe-ok cmp p first v key i h = rw (key_unchecked p i (v.inside i h) (v.reached i h))
