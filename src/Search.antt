-- ===== src/Search.antt =====
-- Binary search on a page: search_other.go, the Go code that stands for the assembly of the other
-- architectures. `high` is held as `high + 1`, which is never negative.
pub mod Order
pub mod Loop
pub mod Bounds
pub mod Pages
use gdbx.Base.{
  ℕ, zero, suc, ◌+◌, ◌-◌, ◌*◌, ◌/◌, Bool, true, false, ltb, leb, if◌then◌else◌, List, [], ◌∷◌, Run,
  ok, ◌>>=◌, Option, some, none,
}
use gdbx.Bytes.{Bytes, load16, slice}
use Order.{Side, less, same, more, compare_bytes}

-- `bytes.Compare(searchKey, nodeKey)` for the key of node `idx`; all offsets are `int`.
unfoldable pub get_key_and_compare : Bytes → ℕ → List ℕ → Run Side
get_key_and_compare page idx search_key = do
  stored ← load16 page (20 + idx * 2)
  key_size ← load16 page (stored + 20 + 6)
  node_key ← slice page (stored + 20 + 8) (stored + 20 + 8 + key_size)
  ok (compare_bytes search_key node_key)

-- How the loop ends: at a key that is equal, at `low`, or without fuel.
pub data Outcome : Type 0 where
  hit : ℕ → Outcome
  gap : ℕ → Outcome
  spent : Outcome

-- What each search returns behind its loop; `none` is a loop without fuel.
abbrev pub leaf_result : Outcome → Option ℕ
leaf_result (hit m) = some m
leaf_result (gap low) = some low
leaf_result spent = none

abbrev pub branch_result : Outcome → Option ℕ
branch_result (hit m) = some m
branch_result (gap low) = some (low - 1)
branch_result spent = none

module _ (probe : ℕ → Run Side) where
  -- The loop of both searches, from `low` up to `high - 1`.
  unfoldable pub search_loop : ℕ → ℕ → ℕ → Run Outcome
  search_loop zero low high = ok spent
  search_loop (suc fuel) low high =
      let mid = (low + high - 1) / 2 in
      let left = search_loop fuel low mid in
      let right = search_loop fuel (mid + 1) high in
      if ltb low high
      then probe mid >>= (λ c. elim c [ less ↦ left | same ↦ ok (hit mid) | more ↦ right ])
      else ok (gap low)

  unfoldable pub search_leaf : ℕ → Run (Option ℕ)
  unfolding search_loop
  search_leaf n =
      if leb n 0
      then ok (some 0)
      else probe (n - 1) >>= λ c. elim c [
        | more ↦ ok (some n)
        | same ↦ ok (some (n - 1))
        | less ↦ search_loop n 0 (n - 1) >>= λ o. ok (leaf_result o)
      ]

  unfoldable pub search_branch : ℕ → Run (Option ℕ)
  unfolding search_loop
  search_branch n =
      if leb n 1
      then ok (some 0)
      else probe (n - 1) >>= λ c. elim c [
        | more ↦ ok (some (n - 1))
        | same ↦ ok (some (n - 1))
        | less ↦ search_loop n 1 (n - 1) >>= λ o. ok (branch_result o)
      ]

unfoldable pub binary_search_leaf_n : Bytes → List ℕ → ℕ → Run (Option ℕ)
unfolding search_leaf get_key_and_compare
binary_search_leaf_n page key n = search_leaf (λ i. get_key_and_compare page i key) n

unfoldable pub binary_search_branch_n : Bytes → List ℕ → ℕ → Run (Option ℕ)
unfolding search_branch get_key_and_compare
binary_search_branch_n page key n = search_branch (λ i. get_key_and_compare page i key) n
