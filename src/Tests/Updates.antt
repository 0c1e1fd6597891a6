-- ===== src/Tests/Updates.antt =====
-- Sub-pages and the insertion of a node at concrete bytes.
use gdbx.Base.{
  ◌+◌, if◌then◌else◌, ◌==◌, ◌*◌, ℕ, ◌≡◌, ◌≢◌, false, true, List, [], ◌∷◌, none, some, arith, ok,
  refl, replicate, ◌++◌,
}
use gdbx.Bytes.{Bytes, slice, load16, read}
use gdbx.Page.Header.{flag_set, invalid_pgno}
use gdbx.Meta.Format.{Tree}
use gdbx.Search.Order.{compare_bytes, compare_bytes_flip, compare_bytes_unflip, compare_bytes_trans}
use gdbx.Txn.Mapping.{value}
use gdbx.Txn.Duplicates.{bytes_of, get_first_sub_page_value}
use gdbx.Update.SubPage.{
  parse_sub_page_values, parse_entries, parse_value, build_dup_sub_page, sub_page_size,
  node_data_size,
}
use gdbx.Update.SubPage.RoundTrip.{
  parse_sub_page_values-build_dup_sub_page, get_first-parse_sub_page_values,
}
use gdbx.Update.Duplicates.{insert_position}
use gdbx.Update.Duplicates.Insert.{IsOrder, IsSorted}
use gdbx.Update.Duplicates.Storing.{Puts, insert_position-Puts}
use gdbx.Update.State.{System, WriteCursor}
use gdbx.Update.Split.{insert_node, spent}
use gdbx.Update.Split.Depth.{insert_node-IsEnded}
use gdbx.Tests.Buffers.{four_taken}

-- The sub-page of the values 1 and 2 3.
abbrev small_sub_page : Bytes
small_sub_page = bytes_of (
    replicate 8 0
    ++ (255 ∷ 255 ∷ 66 ∷ 0 ∷ 4 ∷ 0 ∷ 4 ∷ 0 ∷ 0 ∷ 0 ∷ 0 ∷ 0 ∷ 4 ∷ 0 ∷ 13 ∷ 0 ∷ [])
    ++ (0 ∷ 0 ∷ 0 ∷ 0 ∷ 0 ∷ 0 ∷ 1 ∷ 0 ∷ 1 ∷ [])
    ++ (0 ∷ 0 ∷ 0 ∷ 0 ∷ 0 ∷ 0 ∷ 2 ∷ 0 ∷ 2 ∷ 3 ∷ []))

abbrev the_values : List (List ℕ)
the_values = (1 ∷ []) ∷ (2 ∷ 3 ∷ []) ∷ []

small_sub_page_parsed : parse_sub_page_values small_sub_page ≡ ok (some the_values)
unfolding parse_sub_page_values parse_entries parse_value slice load16 read flag_set
small_sub_page_parsed = refl

byte_order-IsOrder : IsOrder compare_bytes
byte_order-IsOrder = record {
  flip = compare_bytes_flip;
  unflip = compare_bytes_unflip;
  trans = compare_bytes_trans;
}

the_values-IsSorted : IsSorted compare_bytes the_values
unfolding compare_bytes
the_values-IsSorted = ((refl, tt), (tt, tt))

parse_sub_page_values-build_dup_sub_page_example :
    (d : Bytes) × (build_dup_sub_page the_values ≡ ok d)
    × (d.size ≡ sub_page_size the_values)
    × (parse_sub_page_values d ≡ ok (some the_values))
unfolding node_data_size
parse_sub_page_values-build_dup_sub_page_example =
    parse_sub_page_values-build_dup_sub_page the_values (omega arith)

get_first-parse_sub_page_values_example :
    get_first_sub_page_value small_sub_page ≡ ok (value (1 ∷ []))
get_first-parse_sub_page_values_example =
    get_first-parse_sub_page_values small_sub_page (1 ∷ []) ((2 ∷ 3 ∷ []) ∷ [])
      small_sub_page_parsed

insert_position-Puts_example :
    Puts compare_bytes small_sub_page the_values
      (2 ∷ [])
      (insert_position compare_bytes (2 ∷ []) 0 the_values)
unfolding node_data_size
insert_position-Puts_example =
    insert_position-Puts compare_bytes small_sub_page the_values (2 ∷ []) byte_order-IsOrder
      small_sub_page_parsed the_values-IsSorted (omega arith)

abbrev some_system : System
some_system = record { creates = λ _ _. true; left_over = λ _ _. 0; pooled = λ _. 0 }

abbrev empty_tree : Tree
empty_tree = record {
  flags = 0;
  height = 0;
  dupfix_size = 0;
  root = invalid_pgno;
  branch_pages = 0;
  leaf_pages = 0;
  large_pages = 0;
  sequence = 0;
  items = 0;
  mod_txnid = 0;
}

abbrev some_cursor : WriteCursor
some_cursor = record {
  txn = record {
    page_bytes = 4096;
    txn_id = 7;
    mmap_data = record { size = 0; at = λ _. 0 };
    allocated_pg = 3;
    free_pages = [];
    spill = four_taken;
    spill_slots = λ _. none;
    dirty = λ _. none;
    compact_buf = record { size = 4096; at = λ _. 0 };
  };
  tree = empty_tree;
  tree_dirty = false;
  stack = [];
}

insert_node-IsEnded_example : insert_node some_system some_cursor (0 ∷ []) ≢ ok spent
insert_node-IsEnded_example = insert_node-IsEnded some_system some_cursor (0 ∷ [])

-- The page 3 is a branch with one entry, whose child is the page 4.
abbrev mapped_byte : ℕ → ℕ
mapped_byte i =
    if i == 12300
    then 2
    else if i == 12304
    then 3
    else if i == 12308
    then 100
    else if i == 12408
    then 4
    else if i == 16400
    then 4
    else 0

abbrev mapped_page : ℕ → Bytes
mapped_page n = record { size = 4096; at = λ i. mapped_byte (n * 4096 + i) }

abbrev path_cursor : WriteCursor
path_cursor = record some_cursor {
  txn = record (some_cursor.txn) {
    mmap_data = record { size = 20480; at = mapped_byte };
    allocated_pg = 5;
  };
  tree = record empty_tree { root = 3; height = 2; items = 1 };
  stack =
      record { page_no = 4; idx = 0; is_dirty = false }
      ∷ record { page_no = 3; idx = 0; is_dirty = false }
      ∷ [];
}
