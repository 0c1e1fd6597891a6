-- ===== src/Page/Split.antt =====
-- Where a full page is split: page.go, `splitPoint`. The sizes of the nodes are read once; the code
-- reads them again at each use, from a page that does not change meanwhile.
pub mod Halves
use gdbx.Base.{
  ℕ, zero, suc, ◌+◌, ◌-◌, ◌*◌, ◌/◌, Bool, true, false, ◌&&◌, ltb, leb, ◌==◌, if◌then◌else◌, List,
  [], ◌∷◌, Option, none, some, Run, ok, ◌>>=◌, length,
}
use gdbx.Bytes.{Bytes}
use gdbx.Page.Header.{page_header_size}
use gdbx.Page.Entries.{num_entries_fast, calc_node_size_fast}

-- `calcNodeSizeFast` at each index from `i` on.
unfoldable pub all_sizes : Bytes → ℕ → ℕ → Run (List ℕ)
unfolding calc_node_size_fast
all_sizes p i zero = ok []
all_sizes p i (suc n) = do s ← calc_node_size_fast p i; rest ← all_sizes p (i + 1) n; ok (s ∷ rest)

unfoldable pub sum : List ℕ → ℕ
sum [] = 0
sum (s ∷ rest) = s + sum rest

-- The first `n` of them.
unfoldable pub sum_first : ℕ → List ℕ → ℕ
sum_first zero sizes = 0
sum_first (suc n) [] = 0
sum_first (suc n) (s ∷ rest) = s + sum_first n rest

module _ (sizes : List ℕ) (new_size insert_idx max_space : ℕ) where
  -- What `isValidSplit` computes from its counters, once they are known.
  unfoldable pub split_fits : ℕ → ℕ → ℕ → ℕ → Bool
  split_fits left_entries left_data right_entries right_data =
      if left_entries == 0
      then false
      else if right_entries == 0
      then false
      else leb (left_entries * 2 + left_data) max_space
        && leb (right_entries * 2 + right_data) max_space

  unfoldable pub is_valid_split : ℕ → Bool
  is_valid_split s =
      let n = length sizes in
      let left = sum_first s sizes in
      let right = sum sizes - left in
      if ltb n s
      then false
      else if s == 0
      then split_fits 1 new_size n right
      else if ltb insert_idx s
      then split_fits (s + 1) (left + new_size) (n - s) right
      else split_fits s left (n - s + 1) (right + new_size)

  -- The two candidates at a distance of `delta`, in the order of the code.
  unfoldable pub try_delta : ℕ → ℕ → Option ℕ
  try_delta mid delta =
      let below = leb delta mid && is_valid_split (mid - delta) in
      let above = leb (mid + delta) (length sizes) && is_valid_split (mid + delta) in
      if ltb insert_idx mid
      then (if below then some (mid - delta) else if above then some (mid + delta) else none)
      else if above
      then some (mid + delta)
      else if below
      then some (mid - delta)
      else none

  -- The search outward, `rounds` distances from `delta` on.
  unfoldable pub search_outward : ℕ → ℕ → ℕ → Option ℕ
  search_outward mid delta zero = none
  search_outward mid delta (suc rounds) = elim (try_delta mid delta) [
    | some s ↦ some s
    | none ↦ search_outward mid (delta + 1) rounds
  ]

  -- `numEntries / 2`, at least 1
  abbrev pub middle : ℕ
  middle = if length sizes / 2 == 0 then 1 else length sizes / 2

  -- The test that keeps all entries where they are when the new one goes behind them.
  unfoldable pub append_split : Bool
  unfolding sum
  append_split =
      leb (length sizes) insert_idx
      && leb (length sizes * 2 + sum sizes) max_space
      && leb (2 + new_size) max_space

  unfoldable pub split_sizes : ℕ
  unfolding append_split
  split_sizes =
      if length sizes == 0
      then 0
      else if append_split
      then length sizes
      else if is_valid_split middle
      then middle
      else elim (search_outward middle 1 (length sizes)) [ some s ↦ s | none ↦ middle ]

unfoldable pub split_point : Bytes → ℕ → ℕ → Run ℕ
unfolding num_entries_fast all_sizes split_sizes
split_point p new_size insert_idx = do
  n ← num_entries_fast p
  sizes ← all_sizes p 0 n
  ok (split_sizes sizes new_size insert_idx (p.size - page_header_size))
