-- ===== src/Tests/Pages.antt =====
-- The operations on pages at concrete pages.
use gdbx.Base.{ℕ, ◌+◌, ◌<◌, ◌≡◌, refl, List, [], ◌∷◌, arith, ok, true, some, none}
use gdbx.Bytes.{Bytes, load8, load16, load32}
use gdbx.Page.Shape.{upper, IsPage, count, bytes_from, offset_of}
use gdbx.Page.Edit.{insert_entry_with_buf, remove_entry, remove_entries_from, update_entry}
use gdbx.Page.Entries.{calc_node_size, calc_node_size_fast, num_entries_fast, entry_offset_fast}
use gdbx.Page.Edit.RoundTrip.{insert-remove}
use gdbx.Page.Edit.Relocate.{Updated, update_entry_grows}
use gdbx.Page.Edit.Insert.{Inserted, insert_entry_lem}
use gdbx.Page.Edit.Remove.{Removed, remove_entry_lem}
use gdbx.Page.Edit.Truncate.{remove_entries_from_lem}
use gdbx.Page.Header.{is_branch_fast, validate, page_invalid_upper, page_header_size, flag_set}
use gdbx.Page.Entries.{num_entries}
use gdbx.Page.Header.Validate.{IsRead, validate_sound, validate_wraps, validate_64k}
use gdbx.Page.Split.{sum, split_sizes}
use gdbx.Page.Split.Halves.{Fits, split_sizes-Fits}
use gdbx.Tests.Data.{of_list, leaf, leaf-IsPage, new_node}

insert_entry_lem_example :
    (r : Bytes) × (insert_entry_with_buf leaf 1 new_node leaf (λ _. 0) ≡ ok (r, true))
    × Inserted leaf 1 new_node r
insert_entry_lem_example =
    insert_entry_lem leaf 1 new_node leaf-IsPage (omega arith) (omega arith) (omega arith) leaf
      (λ _. 0)

remove_entry_lem_example : (r : Bytes) × (remove_entry leaf 0 ≡ ok (r, true)) × Removed leaf 0 r
remove_entry_lem_example = remove_entry_lem leaf 0 leaf-IsPage (omega arith)

remove_entries_from_lem_example :
    (r : Bytes) × (remove_entries_from leaf 1 ≡ ok r)
    × (count r ≡ 1)
    × ((i n : ℕ) → i < 1 → bytes_from r (offset_of r i) n ≡ bytes_from leaf (offset_of leaf i) n)
    × IsPage r
remove_entries_from_lem_example = remove_entries_from_lem leaf 1 leaf-IsPage (omega arith)

-- Its upper bound is 65530.
abbrev wrapping : Bytes
wrapping =
    of_list (0 ∷ 0 ∷ 0 ∷ 0 ∷ 0 ∷ 0 ∷ 0 ∷ 0 ∷ 0 ∷ 0 ∷ 2 ∷ 0 ∷ 0 ∷ 0 ∷ 250 ∷ 255 ∷ 5 ∷ 0 ∷ 0 ∷ 0 ∷ [])

validate_sound_example : IsRead leaf 64 1
unfolding flag_set validate num_entries
validate_sound_example =
    validate_sound leaf 64 1 (omega arith) (omega arith) (omega arith) refl refl (omega arith)

validate_wraps_example : (validate wrapping 64 ≡ none) × (64 < 65530 + page_header_size)
unfolding flag_set
validate_wraps_example =
    validate_wraps wrapping 64 (omega arith) (omega arith) refl (omega arith) (omega arith)
      (omega arith) (omega arith)

validate_64k_example : validate leaf 65536 ≡ some page_invalid_upper
unfolding flag_set
validate_64k_example = validate_64k leaf (omega arith) refl refl (omega arith)

-- Sizes of four nodes, a fifth of 12 bytes at index 2, and pages with room for 44.
abbrev four : List ℕ
four = 10 ∷ 12 ∷ 10 ∷ 14 ∷ []

split_sizes-Fits_example : Fits four 12 2 44 (split_sizes four 12 2 44)
unfolding sum
split_sizes-Fits_example = split_sizes-Fits four 12 2 44 2 (omega arith) (record {
  in_range = omega arith;
  left_some = omega arith;
  right_some = omega arith;
  left_room = omega arith;
  right_room = omega arith;
})

-- The node that holds 9 under the key 3 is replaced by one with two bytes of data.
abbrev longer_node : List ℕ
longer_node = 2 ∷ 0 ∷ 0 ∷ 0 ∷ 0 ∷ 0 ∷ 1 ∷ 0 ∷ 3 ∷ 1 ∷ 1 ∷ []

leaf_size : calc_node_size leaf 0 ≡ ok 10
unfolding calc_node_size calc_node_size_fast num_entries_fast entry_offset_fast is_branch_fast load8
    load16 load32 flag_set
leaf_size = refl

update_entry_grows_example :
    (r : Bytes) × (update_entry leaf 0 longer_node ≡ ok (r, true)) × Updated leaf 0 longer_node r
update_entry_grows_example =
    update_entry_grows leaf 0 longer_node leaf-IsPage (omega arith) (omega arith) 10 leaf_size
      (omega arith)

insert-remove_example :
    (q r : Bytes) × (insert_entry_with_buf leaf 1 new_node leaf (λ _. 0) ≡ ok (q, true))
    × (remove_entry q 1 ≡ ok (r, true))
    × (count r ≡ 2)
    × ((i n : ℕ) → i < 2 → bytes_from r (offset_of r i) n ≡ bytes_from leaf (offset_of leaf i) n)
    × (upper r + 10 ≡ 24)
    × IsPage r
insert-remove_example =
    insert-remove leaf 1 new_node leaf-IsPage (omega arith) (omega arith) (omega arith) leaf
      (λ _. 0)
