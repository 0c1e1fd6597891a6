-- ===== src/Update/SubPage.antt =====
-- Sub-pages, which hold the values of a key inside its node: `parseSubPageValues`, `buildDupSubPage`
-- and `buildDupNode` of cursor_modify.go, with the other builders of nodes. The scratch buffers that
-- the builders may use are cleared or written over, so that a result is a new slice here; the offsets
-- are `int`.
pub mod Layout
pub mod RoundTrip
use gdbx.Base.{
  ℕ, zero, suc, ◌+◌, ◌-◌, ◌*◌, ◌/◌, ◌%◌, ◌^◌, ◌==◌, ltb, leb, if◌then◌else◌, ◌&&◌, ◌||◌, List, [],
  ◌∷◌, Option, none, some, length, Run, ok, ◌>>=◌, bit_or,
}
use gdbx.Bytes.{Bytes, slice, read, load16, store8, store16, store32, store64, copy_list}
use gdbx.Page.Header.{page_header_size, page_dupfix, page_leaf, page_sub_p, flag_set}
use gdbx.Node.Fields.{node_size, node_big, node_dup}

-- The values, or `none` for the error of a corrupted page.
abbrev pub Parsed : Type 0
Parsed = Option (List (List ℕ))

abbrev pub then_values : List ℕ → Parsed → Parsed
then_values v none = none
then_values v (some vs) = some (v ∷ vs)

-- `n` values of `ksize` bytes each, from the index `i` on.
unfoldable pub parse_fixed : Bytes → ℕ → ℕ → ℕ → Run Parsed
parse_fixed d ksize i zero = ok (some [])
parse_fixed d ksize i (suc n) = do
  v ← slice d (page_header_size + i * ksize) (page_header_size + i * ksize + ksize)
  vs ← parse_fixed d ksize (i + 1) n
  ok (then_values v vs)

-- The value of the node at `pos`, and then those that `rest` has.
unfoldable pub parse_value : Bytes → ℕ → Run Parsed → Run Parsed
parse_value d pos rest = do
  key_size ← load16 d (pos + 6)
  if ltb d.size (pos + 8 + key_size)
      then ok none
      else do v ← slice d (pos + 8) (pos + 8 + key_size); vs ← rest; ok (then_values v vs)

-- `n` entries of the table, from the index `i` on.
unfoldable pub parse_entries : Bytes → ℕ → ℕ → Run Parsed
parse_entries d i zero = ok (some [])
parse_entries d i (suc n) =
    let rest = parse_entries d (i + 1) n in
    if ltb d.size (page_header_size + i * 2 + 2) then ok none else do
      stored ← load16 d (page_header_size + i * 2)
      if ltb d.size (stored + page_header_size + 8)
          then ok none
          else parse_value d (stored + page_header_size) rest

unfoldable pub parse_sub_page_values : Bytes → Run Parsed
parse_sub_page_values d = if ltb d.size page_header_size then ok none else do
  ksize ← load16 d 8
  flags ← load16 d 10
  lower ← load16 d 12
  if flag_set flags page_dupfix && ltb 0 ksize && ltb ksize 65535
      then parse_fixed d ksize 0 ((d.size - page_header_size) / ksize)
      else parse_entries d 0 (lower / 2)

unfoldable pub node_data_size : List (List ℕ) → ℕ
node_data_size [] = 0
node_data_size (v ∷ vs) = node_size + length v + node_data_size vs

abbrev pub sub_page_size : List (List ℕ) → ℕ
sub_page_size vs = page_header_size + length vs * 2 + node_data_size vs

-- The position of the first of these nodes, where `total` is the end of the last: the nodes are placed
-- from the last to the first.
unfoldable pub node_position : ℕ → List (List ℕ) → ℕ
node_position total [] = total
node_position total (v ∷ vs) = node_position total vs - (node_size + length v)

-- The node of a value at `pos`.
unfoldable pub write_value : Bytes → ℕ → List ℕ → Run Bytes
write_value d pos v = do
  d ← store32 d pos 0
  d ← store8 d (pos + 4) 0
  d ← store8 d (pos + 5) 0
  d ← store16 d (pos + 6) (length v % 65536)
  copy_list d (pos + node_size) v

-- The entries and the nodes, from the index `i` on.
unfoldable pub write_values : ℕ → ℕ → List (List ℕ) → Bytes → Run Bytes
write_values total i [] d = ok d
write_values total i (v ∷ vs) d = do
  d ←
      store16 d (page_header_size + i * 2)
        ((node_position total (v ∷ vs) - page_header_size) % 65536)
  d ← write_value d (node_position total (v ∷ vs)) v
  write_values total (i + 1) vs d

unfoldable pub write_sub_page_header : Bytes → ℕ → Run Bytes
write_sub_page_header d table_size = do
  d ← store64 d 0 0
  d ← store16 d 8 0xFFFF
  d ← store16 d 10 (bit_or page_leaf page_sub_p)
  d ← store16 d 12 (table_size % 65536)
  d ← store16 d 14 (table_size % 65536)
  store32 d 16 0

abbrev pub zeroed : ℕ → Bytes
zeroed n = record { size = n; at = λ _. 0 }

unfoldable pub build_dup_sub_page : List (List ℕ) → Run Bytes
build_dup_sub_page vs = do
  d ← write_sub_page_header (zeroed (sub_page_size vs)) (length vs * 2)
  write_values (sub_page_size vs) 0 vs d

unfoldable pub build_dup_node : List ℕ → List ℕ → Run Bytes
build_dup_node key sub_page = do
  d ← store32 (zeroed (node_size + length key + length sub_page)) 0 (length sub_page % 2 ^ 32)
  d ← store8 d 4 node_dup
  d ← store8 d 5 0
  d ← store16 d 6 (length key % 65536)
  d ← copy_list d node_size key
  copy_list d (node_size + length key) sub_page
