-- ===== src/Meta/Trees.antt =====
-- A tree and a geometry of a meta page: the methods of `tree` and `geo` in meta.go.
use gdbx.Base.{ℕ, ◌+◌, ◌*◌, ◌%◌, ◌^◌, Bool, ◌||◌, ◌==◌}
use gdbx.Page.Header.{invalid_pgno, flag_set}
use gdbx.Meta.Format.{Tree, Geo}

unfoldable pub is_dup_sort : Tree → Bool
is_dup_sort t = flag_set t.flags 0x04

unfoldable pub is_dup_fixed : Tree → Bool
is_dup_fixed t = flag_set t.flags 0x10

unfoldable pub is_integer_key : Tree → Bool
is_integer_key t = flag_set t.flags 0x08

unfoldable pub is_reverse_key : Tree → Bool
is_reverse_key t = flag_set t.flags 0x02

unfoldable pub is_empty : Tree → Bool
is_empty t = t.root == invalid_pgno || t.items == 0

-- `uint64` of three 32-bit counts: the sum does not wrap.
unfoldable pub total_pages : Tree → ℕ
total_pages t = t.branch_pages + t.leaf_pages + t.large_pages

-- Flags, key size, sequence and transaction stay.
unfoldable pub reset : Tree → Tree
reset t = record t {
  root = invalid_pgno;
  height = 0;
  branch_pages = 0;
  leaf_pages = 0;
  large_pages = 0;
  items = 0;
}

unfoldable pub size_bytes : Geo → ℕ → ℕ
size_bytes g page = g.now * page % 2 ^ 64

unfoldable pub min_size_bytes : Geo → ℕ → ℕ
min_size_bytes g page = g.lower * page % 2 ^ 64

-- The source takes the next size for the greatest.
unfoldable pub max_size_bytes : Geo → ℕ → ℕ
max_size_bytes g page = g.next * page % 2 ^ 64
