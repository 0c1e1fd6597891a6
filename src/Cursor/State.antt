-- ===== src/Cursor/State.antt =====
-- The state of a cursor and its current entry: cursor.go, `reset`, `pushPageByPgno`, `popPage`,
-- `getCurrent`.
use gdbx.Base.{
  ℕ, ◌-◌, leb, ◌==◌, if◌then◌else◌, Bool, true, false, List, [], ◌∷◌, length, Option, none, some,
  Run, ok, panic, ◌>>=◌,
}
use gdbx.Bytes.{Bytes}
use gdbx.Page.Header.{flag_set}
use gdbx.Page.Entries.{num_entries_fast}
use gdbx.Node.Fields.{node_big}
use gdbx.Node.Direct.{
  node_get_key_direct, node_get_data_direct, node_get_flags_direct, node_get_overflow_pgno_direct,
  node_get_data_size_direct,
}
use gdbx.Meta.Format.{Tree}
use gdbx.Txn.Mapping.{
  Got, value, not_found, corrupted, page_missing, invalid, ReadTxn, page_slice, get_large_data,
}

pub data CursorState : Type 0 where
  uninitialized pointing eof invalidated : CursorState

-- A level of the stack: the page and the index on it.
pub record Level : Type 0 where
  pub page : Bytes
  pub idx : ℕ

-- `stack` is the part of the arrays up to `top`, the top first; `mmap_data` is the cursor's own copy.
pub record Cursor : Type 0 where
  pub state : CursorState
  pub stack : List Level
  pub txn : ReadTxn
  pub mmap_data : Bytes
  pub tree : Tree

-- What an operation returns: a key with its data (nil if an overflow page cannot be read), or the error.
pub data Entry : Type 0 where
  found : List ℕ → Option (List ℕ) → Entry
  no_entry bad_entry stack_full : Entry

abbrev pub cursor_stack_size : ℕ
cursor_stack_size = 32

unfoldable pub reset : Cursor → Cursor
reset c = record c { state = uninitialized; stack = [] }

-- `currentPage` and `currentIndex`
unfoldable pub current_page : Cursor → Option Bytes
current_page c = elim (c.stack) [ [] ↦ none | l ∷ rest ↦ some (l.page) ]

unfoldable pub current_index : Cursor → ℕ
current_index c = elim (c.stack) [ [] ↦ 0 | l ∷ rest ↦ l.idx ]

-- The stack with one page more, or the error; the number of entries is read, and is used in write
-- transactions alone.
unfoldable pub push_page_by_pgno : Cursor → ℕ → ℕ → Run (Option Cursor)
push_page_by_pgno c pgno idx = if leb cursor_stack_size (length c.stack) then ok none else do
  p ← page_slice c.mmap_data c.txn.page_bytes pgno
  _ ← num_entries_fast p
  ok (some (record c { stack = record { page = p; idx = idx } ∷ c.stack }))

unfoldable pub pop_page : Cursor → Option Level × Cursor
pop_page c = elim (c.stack) [ [] ↦ (none, c) | l ∷ rest ↦ (some l, record c { stack = rest }) ]

-- `getLargeData`, whose error is dropped.
abbrev pub data_of : Got → Option (List ℕ)
data_of (value bytes) = some bytes
data_of not_found = none
data_of corrupted = none
data_of page_missing = none
data_of invalid = none

-- The entry of a page that the cursor points at.
unfoldable pub entry_at : ReadTxn → Bytes → ℕ → Run Entry
entry_at t p idx = num_entries_fast p >>= λ n.
    if leb n idx
    then ok no_entry
    else node_get_key_direct p idx >>= λ k. elim k [
      | none ↦ ok bad_entry
      | some key ↦ do
        flags ← node_get_flags_direct p idx
        bytes ← node_get_data_direct p idx
        if flag_set flags node_big
            then (do
              pgno ← node_get_overflow_pgno_direct p idx
              size ← node_get_data_size_direct p idx
              large ← get_large_data t pgno size
              ok (found key (data_of large)))
            else ok (found key bytes)
    ]

abbrev pub is_pointing : CursorState → Bool
is_pointing uninitialized = false
is_pointing pointing = true
is_pointing eof = false
is_pointing invalidated = false

unfoldable pub get_current : Cursor → Run Entry
get_current c =
    if is_pointing c.state
    then elim (c.stack) [ [] ↦ ok no_entry | l ∷ rest ↦ entry_at c.txn l.page l.idx ]
    else ok no_entry

unfoldable pub is_first : Cursor → Run Bool
is_first c = elim (c.stack) [ [] ↦ panic | l ∷ rest ↦ ok (l.idx == 0) ]

-- With no entries the last index is -1, which no index is.
unfoldable pub is_last : Cursor → Run Bool
is_last c = elim (c.stack) [
  | [] ↦ panic
  | l ∷ rest ↦ num_entries_fast l.page >>= λ n. ok (if n == 0 then false else l.idx == n - 1)
]

unfoldable pub on_first : Cursor → Run Bool
unfolding is_first
on_first c = if is_pointing c.state then is_first c else ok false

unfoldable pub on_last : Cursor → Run Bool
unfolding is_last
on_last c = if is_pointing c.state then is_last c else ok false
