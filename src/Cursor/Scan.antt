-- ===== src/Cursor/Scan.antt =====
-- A whole pass over a table: the calls of `moveNext` (cursor.go) from a new cursor up to the first error.
use gdbx.Base.{
  ℕ, zero, suc, ◌≤◌, ◌≡◌, List, [], ◌∷◌, length, Run, ok, panic, ◌>>=◌, Option, none, some,
}
use gdbx.Txn.Mapping.{ReadTxn}
use gdbx.Cursor.State.{Cursor, Entry, no_entry, entry_at, cursor_stack_size}
use gdbx.Cursor.Move.{move_next}
use gdbx.Cursor.Entries.{Position, ahead, IsPointing}

-- `first_one` before what a pass returns.
abbrev before : Entry → Option (List Entry) → Option (List Entry)
before first_one none = none
before first_one (some others) = some (first_one ∷ others)

-- What `n` calls of `moveNext` return in turn; `none` is a call without fuel.
unfoldable pub scan : ℕ → ℕ → Cursor → Run (Option (List Entry))
scan fuel zero c = ok (some [])
scan fuel (suc n) c = move_next fuel c >>= λ r. elim r [
  | none ↦ ok none
  | some (c', e) ↦ scan fuel n c' >>= λ others. ok (before e others)
]

-- The entries of the nodes, and the error that there are no more.
unfoldable pub read_all : ReadTxn → List Position → Run (List Entry)
read_all t [] = ok (no_entry ∷ [])
read_all t ((p, i) ∷ ps) = entry_at t p i >>= λ e. read_all t ps >>= λ others. ok (e ∷ others)

-- The part of a round after the call.
round :
    (fuel n : ℕ) (c c' : Cursor) (r : Run Entry)
    → move_next fuel c ≡ (r >>= λ e. ok (some (c', e)))
    → scan fuel (suc n) c ≡ (r >>= λ e. scan fuel n c' >>= λ others. ok (before e others))
unfolding scan
round fuel n c c' panic h = rw h
round fuel n c c' (ok e) h = rw h

module _ (t : ReadTxn) (fuel : ℕ) where
  -- A pass from a cursor with `n` entries ahead.
  abbrev Scans : ℕ → Type 0
  Scans n =
      (c : Cursor)
      → IsPointing t c
      → c.tree.height ≤ cursor_stack_size
      → length (ahead t 0 c.stack) ≡ n
      → scan fuel (suc n) c ≡ (read_all t (ahead t 0 c.stack) >>= λ es. ok (some es))
