-- ===== src/Cursor/Move.antt =====
-- Moving a cursor: cursor.go, `first`, `last`, `moveNext`, `movePrev` and the descents. An operation
-- returns the cursor as it leaves it, and its result. The table has no duplicates, and the cursor has
-- deleted nothing: the branches on `isDupSort` and `afterDelete` of `moveNext` and `movePrev` are left
-- out.
use gdbx.Base.{
  ℕ, zero, suc, ◌+◌, ◌-◌, ◌*◌, ◌%◌, ltb, ◌==◌, if◌then◌else◌, Bool, true, false, List, [], ◌∷◌,
  length, Option, none, some, Run, ok, panic, ◌>>=◌, in_range,
}
use gdbx.Bytes.{Bytes}
use gdbx.Page.Header.{is_branch_fast}
use gdbx.Page.Entries.{num_entries_fast}
use gdbx.Node.Unchecked.{node_get_child_pgno_unchecked}
use gdbx.Node.Fast.{node_get_child_pgno_fast}
use gdbx.Meta.Trees.{is_empty}
use gdbx.Txn.Mapping.{ReadTxn, page_slice}
use gdbx.Cursor.State.{
  uninitialized, pointing, eof, invalidated, Level, Cursor, Entry, no_entry, stack_full,
  cursor_stack_size, reset, push_page_by_pgno, get_current,
}

-- txn.go, `getPageDataFast` (by `fillPageHotPath`): past the mapping of the transaction the current one
-- is taken, and kept. A page that is in neither has no bytes.
unfoldable pub get_page_data_fast : ReadTxn → ℕ → Run (ReadTxn × Bytes)
get_page_data_fast t pgno =
    if ltb t.mmap_data.size (pgno * t.page_bytes + t.page_bytes)
    then elim (t.env_map) [
      | none ↦ panic
      | some m ↦
          let t' = record t { mmap_data = m } in
          if ltb m.size (pgno * t.page_bytes + t.page_bytes)
          then ok (t', record { size = 0; at = λ i. 0 })
          else page_slice m t.page_bytes pgno >>= λ p. ok (t', p)
    ]
    else page_slice t.mmap_data t.page_bytes pgno >>= λ p. ok (t, p)

-- The levels that are left below the stack: `int(c.tree.Height) - int(c.top) - 1`.
unfoldable pub levels_to_descend : Cursor → ℕ
levels_to_descend c = c.tree.height - length c.stack

-- `rounds` levels down to the left; the error leaves the pages that are pushed.
unfoldable pub push_left : Cursor → ℕ → Run (Cursor × Bool)
push_left c zero = ok (c, true)
push_left c (suc rounds) = elim (c.stack) [
  | [] ↦ panic
  | l ∷ rest ↦ node_get_child_pgno_unchecked l.page l.idx >>= λ child.
      push_page_by_pgno c child 0 >>= λ pushed. elim pushed [
        | none ↦ ok (c, false)
        | some c' ↦ push_left c' rounds
      ]
]

-- An operation ends with the current entry.
abbrev pub with_current : Cursor → Run (Cursor × Entry)
with_current c = get_current c >>= λ e. ok (c, e)

unfoldable pub descend_left : Cursor → Run (Cursor × Entry)
descend_left c = push_left c (levels_to_descend c) >>= λ r. elim (r.1) [
  | true ↦ with_current (r.0)
  | false ↦ ok (r.0, stack_full)
]

-- `uint16(n - 1)`
abbrev pub last_index : ℕ → ℕ
last_index n = (n + 65535) % 65536

-- `rounds` levels down to the right; nothing checks the depth, so past the arrays it is a panic.
unfoldable pub push_right : Cursor → ℕ → Run Cursor
push_right c zero = ok c
push_right c (suc rounds) = elim (c.stack) [
  | [] ↦ panic
  | l ∷ rest ↦ do
    child ← node_get_child_pgno_unchecked l.page l.idx
    _ ← in_range (ltb (length c.stack) cursor_stack_size)
    p ← page_slice c.mmap_data c.txn.page_bytes child
    n ← num_entries_fast p
    push_right (record c { stack = record { page = p; idx = last_index n } ∷ c.stack }) rounds
]

unfoldable pub descend_right : Cursor → Run (Cursor × Entry)
descend_right c = push_right c (levels_to_descend c) >>= λ c'. with_current c'

-- The loop of `first` from the page on top down, on fuel; `none` is a loop without fuel.
unfoldable pub first_loop : ℕ → Cursor → Run (Option (Cursor × Entry))
first_loop zero c = ok none
first_loop (suc fuel) c = elim (c.stack) [
  | [] ↦ panic
  | l ∷ rest ↦ is_branch_fast l.page >>= λ branch. elim branch [
    | true ↦ node_get_child_pgno_fast l.page 0 >>= λ child.
        push_page_by_pgno c child 0 >>= λ pushed. elim pushed [
          | none ↦ ok (some (c, stack_full))
          | some c' ↦ first_loop fuel c'
        ]
    | false ↦ num_entries_fast l.page >>= λ n.
        if n == 0
        then ok (some (record c { state = eof }, no_entry))
        else with_current (record c { state = pointing }) >>= λ r. ok (some r)
  ]
]

-- The root on the stack, with what `index` makes of its number of entries.
unfoldable pub at_root : Cursor → (ℕ → ℕ) → Run Cursor
at_root c index = get_page_data_fast c.txn c.tree.root >>= λ r. num_entries_fast (r.1) >>= λ n.
    ok (record c { txn = r.0; stack = record { page = r.1; idx = index n } ∷ [] })

unfoldable pub first : ℕ → Cursor → Run (Option (Cursor × Entry))
first fuel c =
    if is_empty c.tree
    then ok (some (record (reset c) { state = eof }, no_entry))
    else at_root (reset c) (λ n. 0) >>= λ c'. first_loop fuel c'

-- The loop of `last`, which takes each page by `fillPageHotPath`.
unfoldable pub last_loop : ℕ → Cursor → Run (Option (Cursor × Entry))
last_loop zero c = ok none
last_loop (suc fuel) c = elim (c.stack) [
  | [] ↦ panic
  | l ∷ rest ↦ is_branch_fast l.page >>= λ branch. elim branch [
    | true ↦ node_get_child_pgno_fast l.page l.idx >>= λ child.
        in_range (ltb (length c.stack) cursor_stack_size) >>= λ _.
        get_page_data_fast c.txn child >>= λ r. num_entries_fast (r.1) >>= λ n.
        last_loop fuel
          (record c { txn = r.0; stack = record { page = r.1; idx = last_index n } ∷ c.stack })
    | false ↦ with_current (record c { state = pointing }) >>= λ r. ok (some r)
  ]
]

unfoldable pub last : ℕ → Cursor → Run (Option (Cursor × Entry))
last fuel c =
    if is_empty c.tree
    then ok (some (record (reset c) { state = eof }, no_entry))
    else at_root (reset c) last_index >>= λ c'. last_loop fuel c'

-- The loop of `moveNext` up the stack; `none` is the end of the loop, at an empty stack.
unfoldable pub next_loop : Cursor → List Level → Run (Option (Cursor × Entry))
next_loop c [] = ok none
next_loop c (l ∷ rest) = num_entries_fast l.page >>= λ n. elim (ltb (l.idx + 1) n) [
  | true ↦ is_branch_fast l.page >>= λ branch.
      let c' = record c { stack = record l { idx = l.idx + 1 } ∷ rest } in
      elim branch [
        | true ↦ descend_left c' >>= λ r. ok (some r)
        | false ↦ with_current c' >>= λ r. ok (some r)
      ]
  | false ↦ next_loop c rest
]

-- At the end the stack is restored, and the state is left.
unfoldable pub move_next : ℕ → Cursor → Run (Option (Cursor × Entry))
move_next fuel c = elim (c.state) [
  | uninitialized ↦ first fuel c
  | pointing ↦ next_loop c c.stack >>= λ r. elim r [
    | none ↦ ok (some (c, no_entry))
    | some result ↦ ok (some result)
  ]
  | eof ↦ ok (some (c, no_entry))
  | invalidated ↦ ok (some (c, no_entry))
]

unfoldable pub prev_loop : Cursor → List Level → Run (Cursor × Entry)
prev_loop c [] = ok (record c { state = eof; stack = [] }, no_entry)
prev_loop c (l ∷ rest) = elim (ltb 0 l.idx) [
  | true ↦ is_branch_fast l.page >>= λ branch.
      let c' = record c { stack = record l { idx = l.idx - 1 } ∷ rest } in
      elim branch [ true ↦ descend_right c' | false ↦ with_current c' ]
  | false ↦ prev_loop c rest
]

unfoldable pub move_prev : ℕ → Cursor → Run (Option (Cursor × Entry))
move_prev fuel c = elim (c.state) [
  | uninitialized ↦ last fuel c
  | pointing ↦ prev_loop c c.stack >>= λ r. ok (some r)
  | eof ↦ last fuel c
  | invalidated ↦ ok (some (c, no_entry))
]
