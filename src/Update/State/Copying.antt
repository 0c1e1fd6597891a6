-- ===== src/Update/State/Copying.antt =====
-- Touching the pages of a path: copy on write.
use gdbx.Base.{ℕ, ◌≡◌, List, Option, Run, ok}
use gdbx.Update.State.{System, WriteCursor, PathLevel}
use gdbx.Update.State.Path.{Fits, Keeps}
use gdbx.Update.State.Copies.{AreCopies}

-- The path is touched, and leads to `m`.
abbrev pub Touches : System → WriteCursor → List PathLevel → Option ℕ → ℕ → Run WriteCursor → Type 0
Touches sys c stack m k r =
    (c' : WriteCursor) × (r ≡ ok c')
    × Fits sys c' c'.stack m k
    × Keeps c stack c'
    × AreCopies c.txn c'.txn m stack c'.stack
