-- ===== src/Cursor/Sorted.antt =====
-- The entries of a tree, split at a key.
use mathlib.Core.List.{append_assoc}
use gdbx.Base.{
  ℕ, zero, suc, ◌+◌, ◌-◌, ◌≤◌, ◌<◌, ◌≡◌, ◌≢◌, refl, sym, ap, ◌∙◌, List, [], ◌∷◌, ◌++◌, arith, inl,
  inr,
}
use gdbx.Bytes.{Bytes}
use gdbx.Page.Shape.{count}
use gdbx.Node.Variants.{key_bytes}
use gdbx.Search.Order.{
  less, more, compare_bytes, compare_bytes_refl, compare_bytes_trans, compare_bytes-same,
  compare_bytes_flip,
}
use gdbx.Search.Loop.{side-cases}
use gdbx.Txn.Mapping.{ReadTxn}
use gdbx.Txn.Trees.{page_at, child_of, IsAt, IsBetween}
use gdbx.Cursor.Entries.{Position, items, entries}

abbrev pub All : (Position → Type 0) → List Position → Type 0
All P [] = Unit
All P (q ∷ qs) = P q × All P qs

pub All-append :
    (P : Position → Type 0) (ps qs : List Position) → All P ps → All P qs → All P (ps ++ qs)
All-append P [] qs h k = k
All-append P (p ∷ ps) qs (h, hs) k = (h, All-append P ps qs hs k)

-- The key of a node is less than the one sought; it is not.
abbrev pub IsBelow : List ℕ → Position → Type 0
IsBelow key (q, i) = compare_bytes key (key_bytes q i) ≡ more

abbrev pub IsFrom : List ℕ → Position → Type 0
IsFrom key (q, i) = compare_bytes key (key_bytes q i) ≢ more

pub items-split :
    (t : ReadTxn) (k : ℕ) (p : Bytes) (i a b : ℕ)
    → items t k p i (a + b) ≡ items t k p i a ++ items t k p (i + a) b
unfolding items
items-split t zero p i zero b =
    let none_before : 0 + b ≡ b = omega arith in
    let at_start : i + 0 ≡ i = omega arith in rw (none_before, at_start)
items-split t zero p i (suc a) b =
    let one_more : suc a + b ≡ suc (a + b) = omega arith in
    let next : i + suc a ≡ i + 1 + a = omega arith in
    rw (one_more, next) (ap (λ ps. (p, i) ∷ ps) (items-split t zero p (i + 1) a b))
items-split t (suc k) p i zero b =
    let none_before : 0 + b ≡ b = omega arith in
    let at_start : i + 0 ≡ i = omega arith in rw (none_before, at_start)
items-split t (suc k) p i (suc a) b =
    let one_more : suc a + b ≡ suc (a + b) = omega arith in
    let next : i + suc a ≡ i + 1 + a = omega arith in
    rw (one_more, next)
      (ap (λ ps. entries t k (child_of p i) ++ ps) (items-split t (suc k) p (i + 1) a b)
        ∙ sym (
            append_assoc (entries t k (child_of p i)) (items t (suc k) p (i + 1) a)
              (items t (suc k) p (i + 1 + a) b)))

module _ (t : ReadTxn) (P : Position → Type 0) where
  pub items-All :
      (p : Bytes) (i n : ℕ) → ((j : ℕ) → i ≤ j → j < i + n → P (p, j)) → All P (items t 0 p i n)
  unfolding items
  items-All p i zero h = tt
  items-All p i (suc n) h = (
    h i (omega arith) (omega arith),
    items-All p (i + 1) n (λ j a b. h j (omega arith) (omega arith)),
  )

  pub items_below-All :
      (k : ℕ) (p : Bytes) (i n : ℕ)
      → ((j : ℕ) → i ≤ j → j < i + n → All P (entries t k (child_of p j)))
      → All P (items t (suc k) p i n)
  unfolding items
  items_below-All k p i zero h = tt
  items_below-All k p i (suc n) h =
      All-append P (entries t k (child_of p i)) (items t (suc k) p (i + 1) n)
        (h i (omega arith) (omega arith))
        (items_below-All k p (i + 1) n (λ j a b. h j (omega arith) (omega arith)))

  -- What holds of each node that a key is at holds of all entries.
  pub entries-All :
      (k g : ℕ)
      → ((q : Bytes) (i : ℕ) → IsAt compare_bytes t k g (key_bytes q i) q i → P (q, i))
      → All P (entries t k g)
  entries-All zero g h = items-All (page_at t g) 0 (count (page_at t g)) (λ j a b.
      h (page_at t g) j (refl, omega arith, compare_bytes_refl (key_bytes (page_at t g) j)))
  entries-All (suc k) g h = items_below-All k (page_at t g) 0 (count (page_at t g)) (λ j a b.
      entries-All k (child_of (page_at t g) j) (λ q i at_child. h q i (j, omega arith, at_child)))

-- A key less than a bound, against one that is not, and the other way round.
past_bound :
    (key sep other : List ℕ)
    → compare_bytes key sep ≡ less
    → compare_bytes other sep ≢ less
    → compare_bytes key other ≢ more
past_bound key sep other below not_below e =
    not_below (compare_bytes_trans other key sep (compare_bytes_flip key other e) below)

short_of_bound :
    (key sep other : List ℕ)
    → compare_bytes key sep ≢ less
    → compare_bytes other sep ≡ less
    → compare_bytes key other ≡ more
short_of_bound key sep other not_below below = elim (side-cases (compare_bytes key other)) [
  | inl e ↦ absurd (not_below (compare_bytes_trans key other sep e below))
  | inr (inl e) ↦ absurd (not_below (rw (compare_bytes-same key other e) below))
  | inr (inr e) ↦ e
]

-- The entries below the children before and behind the one that a key belongs to.
module _ (t : ReadTxn) (k g : ℕ) (key : List ℕ) (r : ℕ) (in_range : r < count (page_at t g))
    (before : (i : ℕ) → 1 ≤ i → i ≤ r → compare_bytes key (key_bytes (page_at t g) i) ≢ less)
    (behind : (i : ℕ)
      → r < i
      → i < count (page_at t g)
      → compare_bytes key (key_bytes (page_at t g) i) ≡ less)
    (between : (j : ℕ)
      → j < count (page_at t g)
      → IsBetween compare_bytes t k (page_at t g) j) where
  pub left-IsBelow : All (IsBelow key) (items t (suc k) (page_at t g) 0 r)
  left-IsBelow = items_below-All t (IsBelow key) k (page_at t g) 0 r (λ j a b.
      entries-All t (IsBelow key) k (child_of (page_at t g) j) (λ q i at_child.
        short_of_bound key (key_bytes (page_at t g) (j + 1)) (key_bytes q i)
          (before (j + 1) (omega arith) (omega arith))
          ((between j (omega arith) (key_bytes q i) q i at_child).1 (omega arith))))

  pub right-IsFrom :
      All (IsFrom key) (items t (suc k) (page_at t g) (r + 1) (count (page_at t g) - (r + 1)))
  right-IsFrom =
      items_below-All t (IsFrom key) k (page_at t g) (r + 1) (count (page_at t g) - (r + 1))
        (λ j a b. entries-All t (IsFrom key) k (child_of (page_at t g) j) (λ q i at_child.
          past_bound key (key_bytes (page_at t g) j) (key_bytes q i)
            (behind j (omega arith) (omega arith))
            ((between j (omega arith) (key_bytes q i) q i at_child).0 (omega arith))))
