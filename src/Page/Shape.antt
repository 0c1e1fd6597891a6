-- ===== src/Page/Shape.antt =====
-- The shape of a well-formed page, in terms of its bytes.
use gdbx.Base.{ℕ, ◌+◌, ◌*◌, ◌/◌, ◌%◌, ◌≤◌, ◌<◌, ◌≡◌, List, sub_ℕ, arith, suc, ◌-◌, ◌⊎◌, inl, inr}
use native.Mathlib.Decide.{dec_lt, ℕ_discrete}
use gdbx.Bytes.{Bytes, word16, read}
use gdbx.Page.Header.{page_header_size}
use gdbx.Page.Entries.{num_entries, free_space}

abbrev pub lower : Bytes → ℕ
lower p = word16 p.at 12

abbrev pub upper : Bytes → ℕ
upper p = word16 p.at 14

abbrev pub count : Bytes → ℕ
count p = lower p / 2

-- The offset of node `i`, relative to the end of the header.
abbrev pub offset_of : Bytes → ℕ → ℕ
offset_of p i = word16 p.at (page_header_size + i * 2)

-- `n` bytes of a page from such an offset on.
abbrev pub bytes_from : Bytes → ℕ → ℕ → List ℕ
bytes_from p off n = read p.at (off + page_header_size) n

-- The header is consistent: the table of `lower` bytes ends before the nodes, which start at `upper`.
pub record HasLayout (p : Bytes) : Type 0 where
  pub header_fits : page_header_size ≤ p.size
  pub addressable : p.size ≤ 65536
  pub whole_entries : lower p % 2 ≡ 0
  pub ordered : lower p ≤ upper p
  pub bounded : upper p + page_header_size ≤ p.size

-- Each entry points into the nodes.
pub record IsPage (p : Bytes) : Type 0 where
  pub layout : HasLayout p
  pub entries :
      (i : ℕ)
      → i < count p
      → (upper p ≤ offset_of p i) × (offset_of p i + page_header_size ≤ p.size)

pub num_entries-count : (p : Bytes) → page_header_size ≤ p.size → num_entries p ≡ count p
unfolding num_entries
num_entries-count p h = ground arith

pub free_space-sub :
    (p : Bytes) → page_header_size ≤ p.size → free_space p ≡ sub_ℕ (upper p) (lower p)
unfolding free_space
free_space-sub p h = ground arith

-- Where an index stands to the place of a new entry.
pub position : (i idx : ℕ) → (i < idx) ⊎ (i ≡ idx) ⊎ ((j : ℕ) × (i ≡ suc j) × (idx ≤ j))
position i idx = elim (dec_lt i idx) [
  | yes h ↦ inl h
  | no h ↦ elim (ℕ_discrete i idx) [
    | yes e ↦ inr (inl e)
    | no e ↦ inr (inr (i - 1, omega arith, omega arith))
  ]
]
