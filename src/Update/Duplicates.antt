-- ===== src/Update/Duplicates.antt =====
-- The values of one key in a sub-page: `hasDupValueInSubPage`, `getLastDupValueSubPage`,
-- `putDupSubPage` and `convertToDupSubPage` of cursor_modify.go. The order of the values is the
-- parameter `cmp` (`compareDupValues`, of a callback that the application may set).
pub mod Entries
pub mod Find
pub mod Insert
pub mod Storing
use gdbx.Base.{
  ℕ, zero, suc, ◌+◌, ◌-◌, ◌*◌, ◌/◌, ◌%◌, ◌==◌, ltb, leb, if◌then◌else◌, Bool, true, false, ◌&&◌,
  ◌||◌, List, [], ◌∷◌, ◌++◌, take, drop, Option, none, some, length, Run, ok, ◌>>=◌,
}
use gdbx.Bytes.{Bytes, slice, read, load16, copy_list}
use gdbx.Page.Header.{page_header_size, page_dupfix, flag_set}
use gdbx.Page.Edit.{update_entry, remove_entry}
use gdbx.Page.CompactTo.{compact_to}
use gdbx.Node.Fields.{node_size}
use gdbx.Node.Direct.{node_get_data_direct}
use gdbx.Search.Order.{Side, less, same, more}
use gdbx.Txn.Duplicates.{bytes_of}
use gdbx.Update.SubPage.{Parsed, parse_sub_page_values, build_dup_sub_page, build_dup_node, zeroed}

-- The value of the entry `i`, or `none` where a part of it is past the end.
unfoldable pub entry_value : Bytes → ℕ → Run (Option (List ℕ))
entry_value d i = if ltb d.size (page_header_size + i * 2 + 2) then ok none else do
  stored ← load16 d (page_header_size + i * 2)
  if ltb d.size (stored + page_header_size + node_size) then ok none else do
    key_size ← load16 d (stored + page_header_size + 6)
    if ltb d.size (stored + page_header_size + node_size + key_size) then ok none else do
      v ←
          slice d (stored + page_header_size + node_size)
            (stored + page_header_size + node_size + key_size)
      ok (some v)

-- The value `i` of `ksize` bytes.
unfoldable pub fixed_value : Bytes → ℕ → ℕ → Run (Option (List ℕ))
fixed_value d ksize i = if ltb d.size (page_header_size + i * ksize + ksize) then ok none else do
  v ← slice d (page_header_size + i * ksize) (page_header_size + i * ksize + ksize)
  ok (some v)

-- The end of an updating operation on a node: the page as it is left; or what is still to be done, which
-- is to insert a node at the index in a page that has no room for it, or to move the values to a tree.
-- Where the page is updated, or will be, the tree has one item more.
pub data Put : Type 0 where
  corrupted present : Put
  updated : Bytes → Put
  insert_at : Bytes → List ℕ → Put
  to_sub_tree : List (List ℕ) → Put

abbrev pub by_side : Side → Run Bool → Run Bool → Run Bool → Run Bool
by_side less left equal right = left
by_side same left equal right = equal
by_side more left equal right = right

abbrev pub on_value : Option (List ℕ) → (List ℕ → Run Bool) → Run Bool
on_value none found = ok false
on_value (some v) found = found v

-- `env.LeafNodeMax()`; the page size is that of an open environment, which is not 0.
unfoldable pub leaf_node_max : ℕ → ℕ
leaf_node_max page_size = (page_size - page_header_size) / 2

abbrev pub list_of : Bytes → List ℕ
list_of d = read d.at 0 d.size

abbrev pub position_at : Side → ℕ → Option ℕ → Option ℕ
position_at same i rest = none
position_at less i rest = some i
position_at more i rest = rest

abbrev pub insert_value : List (List ℕ) → ℕ → List ℕ → List (List ℕ)
insert_value values pos value = take pos values ++ (value ∷ drop pos values)

module _ (cmp : List ℕ → List ℕ → Side) where
  -- The loop of the search, between `low` and `high - 1`.
  unfoldable pub search_values : (ℕ → Run (Option (List ℕ))) → List ℕ → ℕ → ℕ → ℕ → Run Bool
  search_values value_of value zero low high = ok false
  search_values value_of value (suc fuel) low high =
      let mid = (low + high - 1) / 2 in
      let left = search_values value_of value fuel low mid in
      let right = search_values value_of value fuel (mid + 1) high in
      if ltb low high
      then (do r ← value_of mid; on_value r (λ v. by_side (cmp v value) right (ok true) left))
      else ok false

  unfoldable pub has_dup_value_in_sub_page : Bytes → List ℕ → Run Bool
  has_dup_value_in_sub_page d value = if ltb d.size page_header_size then ok false else do
    ksize ← load16 d 8
    flags ← load16 d 10
    lower ← load16 d 12
    if flag_set flags page_dupfix && ltb 0 ksize && ltb ksize 65535
        then search_values (fixed_value d ksize) value (suc ((d.size - page_header_size) / ksize)) 0
            ((d.size - page_header_size) / ksize)
        else if leb lower 0
        then ok false
        else search_values (entry_value d) value (suc (lower / 2)) 0 (lower / 2)

  -- The first position, from `i` on, where the value can stand; `none` where the value is there.
  unfoldable pub insert_position : List ℕ → ℕ → List (List ℕ) → Option ℕ
  insert_position value i [] = some i
  insert_position value i (v ∷ vs) =
      let rest = insert_position value (i + 1) vs in position_at (cmp value v) i rest

  -- The two values in their order; `none` where they are the same.
  unfoldable pub two_values : List ℕ → List ℕ → Option (List (List ℕ))
  two_values existing value = elim (cmp existing value) [
    | same ↦ none
    | less ↦ some (existing ∷ value ∷ [])
    | more ↦ some (value ∷ existing ∷ [])
  ]

  -- The node with the sub-page of the values, into the page.
  unfoldable pub convert_to_dup_sub_page : Bytes → ℕ → ℕ → List ℕ → List ℕ → Run Put
  convert_to_dup_sub_page p page_size idx key value = do
    existing ← node_get_data_direct p idx
    elim existing [
      | none ↦ ok corrupted
      | some old ↦ elim (two_values old value) [
        | none ↦ ok present
        | some values ↦ (do
          sub_page ← build_dup_sub_page values
          if ltb (leaf_node_max page_size) (node_size + length key + sub_page.size)
              then ok (to_sub_tree values)
              else do
                node ← build_dup_node key (list_of sub_page)
                r ← update_entry p idx (list_of node)
                if r.1
                    then ok (updated r.0)
                    else do left ← remove_entry r.0 idx; ok (insert_at left.0 (list_of node)))
      ]
    ]

  -- The second and the third attempt of `putDupSubPage`: on a compacted copy, whose size is `uint16`,
  -- then by a split.
  unfoldable pub put_compacted : Bytes → ℕ → (ℕ → ℕ) → ℕ → List ℕ → Run Put
  put_compacted p page_size pooled idx node = do
    temp ← compact_to p (zeroed (page_size % 65536)) (page_size % 65536) pooled
    r ← update_entry temp idx node
    if r.1
        then (do q ← copy_list p 0 (list_of r.0); ok (updated q))
        else do left ← remove_entry p idx; ok (insert_at left.0 node)

  abbrev pub put_values : Bytes → ℕ → (ℕ → ℕ) → ℕ → List ℕ → List ℕ → Parsed → Run Put
  put_values p page_size pooled idx key value none = ok corrupted
  put_values p page_size pooled idx key value (some values) =
      elim (insert_position value 0 values) [
        | none ↦ ok present
        | some pos ↦ (do
          sub_page ← build_dup_sub_page (insert_value values pos value)
          if ltb (leaf_node_max page_size) (node_size + length key + sub_page.size)
              then ok (to_sub_tree (insert_value values pos value))
              else do
                node ← build_dup_node key (list_of sub_page)
                r ← update_entry p idx (list_of node)
                if r.1
                    then ok (updated r.0)
                    else put_compacted r.0 page_size pooled idx (list_of node))
      ]

  unfoldable pub put_dup_sub_page : Bytes → ℕ → (ℕ → ℕ) → ℕ → List ℕ → List ℕ → Run Put
  put_dup_sub_page p page_size pooled idx key value = do
    existing ← node_get_data_direct p idx
    elim existing [
      | none ↦ ok corrupted
      | some data_bytes ↦ if ltb (length data_bytes) 16 then ok corrupted else do
        parsed ← parse_sub_page_values (bytes_of data_bytes)
        put_values p page_size pooled idx key value parsed
    ]

unfoldable pub last_dup_value : Bytes → Run (Option (List ℕ))
last_dup_value d = if ltb d.size page_header_size then ok none else do
  ksize ← load16 d 8
  flags ← load16 d 10
  lower ← load16 d 12
  if flag_set flags page_dupfix && ltb 0 ksize && ltb ksize 65535
      then (let n = (d.size - page_header_size) / ksize in
          if n == 0 then ok none else do
            v ←
                slice d (page_header_size + (n - 1) * ksize)
                  (page_header_size + (n - 1) * ksize + ksize)
            ok (some v))
      else if lower / 2 == 0
      then ok none
      else entry_value d (lower / 2 - 1)

unfoldable pub get_last_dup_value_sub_page : Bytes → ℕ → Run (Option (List ℕ))
get_last_dup_value_sub_page p idx = do
  existing ← node_get_data_direct p idx
  elim existing [ none ↦ ok none | some data_bytes ↦ last_dup_value (bytes_of data_bytes) ]
