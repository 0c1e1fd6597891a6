-- ===== src/Cursor/Entries.antt =====
-- The entries of a tree in order, and those ahead of a cursor.
use gdbx.Base.{
  ℕ, zero, suc, ◌+◌, ◌-◌, ◌*◌, ◌≤◌, ◌<◌, ◌≡◌, refl, true, false, List, [], ◌∷◌, ◌++◌, length, arith,
  ok,
}
use gdbx.Bytes.{Bytes}
use gdbx.Bytes.Loads.{load16_ok}
use gdbx.Page.Header.{page_header_size, is_branch_fast}
use gdbx.Page.Entries.{num_entries_fast}
use gdbx.Page.Shape.{count}
use gdbx.Node.Variants.{HasKey}
use gdbx.Txn.Mapping.{ReadTxn}
use gdbx.Txn.Trees.{page_at, child_of, is_branch_page}
use gdbx.Cursor.State.{Level, Cursor, pointing}

-- Node `i` of the leaf `page`.
abbrev pub Position : Type 0
Position = Bytes × ℕ

-- Those of `n` nodes from the i-th on of a page at height `k`: at height 0 the nodes themselves, above
-- it those of the children's pages.
unfoldable pub items : ReadTxn → ℕ → Bytes → ℕ → ℕ → List Position
items t zero p i zero = []
items t zero p i (suc n) = (p, i) ∷ items t zero p (i + 1) n
items t (suc k) p i zero = []
items t (suc k) p i (suc n) =
    items t k (page_at t (child_of p i)) 0 (count (page_at t (child_of p i)))
    ++ items t (suc k) p (i + 1) n

abbrev pub entries : ReadTxn → ℕ → ℕ → List Position
entries t h g = items t h (page_at t g) 0 (count (page_at t g))

-- Those behind the index of each level of a stack, whose top is at height `k`.
unfoldable pub ahead : ReadTxn → ℕ → List Level → List Position
ahead t k [] = []
ahead t k (l ∷ rest) =
    items t k l.page (l.idx + 1) (count l.page - (l.idx + 1)) ++ ahead t (suc k) rest

-- A page at height `k` that has nodes, with the pages below it.
abbrev pub IsGrown : ReadTxn → ℕ → Bytes → Type 0
IsGrown t zero p = (page_header_size ≤ p.size) × (is_branch_page p ≡ false) × (0 < count p)
IsGrown t (suc k) p =
    (page_header_size ≤ p.size)
    × (is_branch_page p ≡ true)
    × (0 < count p)
    × ((j : ℕ)
        → j < count p
        → HasKey p j
          × (child_of p j * t.page_bytes + t.page_bytes ≤ t.mmap_data.size)
          × IsGrown t k (page_at t (child_of p j)))

-- Each level of a stack points at a node of such a page.
abbrev pub IsOnStack : ReadTxn → ℕ → List Level → Type 0
IsOnStack t k [] = Unit
IsOnStack t k (l ∷ rest) = IsGrown t k l.page × (l.idx < count l.page) × IsOnStack t (suc k) rest

-- A cursor that points at a leaf, at the depth of its tree, and reads its transaction's mapping.
pub record IsPointing (t : ReadTxn) (c : Cursor) : Type 0 where
  pub of_txn : c.txn ≡ t
  pub same_map : c.mmap_data ≡ t.mmap_data
  pub points : c.state ≡ pointing
  pub deep : length c.stack ≡ c.tree.height
  pub levels : IsOnStack t 0 c.stack

pub IsGrown-fits : (t : ReadTxn) (k : ℕ) (p : Bytes) → IsGrown t k p → page_header_size ≤ p.size
IsGrown-fits t zero p h = h.0
IsGrown-fits t (suc k) p h = h.0

pub IsGrown-pos : (t : ReadTxn) (k : ℕ) (p : Bytes) → IsGrown t k p → 0 < count p
IsGrown-pos t zero p h = h.2
IsGrown-pos t (suc k) p h = h.2

pub num_entries_fast-count :
    (p : Bytes) → page_header_size ≤ p.size → num_entries_fast p ≡ ok (count p)
unfolding num_entries_fast
num_entries_fast-count p h = rw (load16_ok p 12 (omega (arith, h)))

pub is_branch_fast-page :
    (p : Bytes) → page_header_size ≤ p.size → is_branch_fast p ≡ ok (is_branch_page p)
unfolding is_branch_fast
is_branch_fast-page p h = rw (load16_ok p 10 (omega (arith, h)))

-- The first of the nodes from an index in range, and the rest.
pub items-leaf :
    (t : ReadTxn) (p : Bytes) (i : ℕ)
    → i < count p
    → items t 0 p i (count p - i) ≡ (p, i) ∷ items t 0 p (i + 1) (count p - (i + 1))
unfolding items
items-leaf t p i h = let e : count p - i ≡ suc (count p - (i + 1)) = omega arith in rw e

pub items-branch :
    (t : ReadTxn) (k : ℕ) (p : Bytes) (i : ℕ)
    → i < count p
    → items t (suc k) p i (count p - i)
      ≡ entries t k (child_of p i) ++ items t (suc k) p (i + 1) (count p - (i + 1))
unfolding items
items-branch t k p i h = let e : count p - i ≡ suc (count p - (i + 1)) = omega arith in rw e

pub items-past :
    (t : ReadTxn) (k : ℕ) (p : Bytes) (i : ℕ) → count p ≤ i → items t k p i (count p - i) ≡ []
unfolding items
items-past t zero p i h = let e : count p - i ≡ 0 = omega arith in rw e
items-past t (suc k) p i h = let e : count p - i ≡ 0 = omega arith in rw e

pub ahead-cons :
    (t : ReadTxn) (k : ℕ) (l : Level) (rest : List Level)
    → ahead t k (l ∷ rest)
      ≡ items t k l.page (l.idx + 1) (count l.page - (l.idx + 1)) ++ ahead t (suc k) rest
unfolding ahead
ahead-cons t k l rest = refl
