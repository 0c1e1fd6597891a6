-- ===== src/Cursor.antt =====
-- Cursors of read-only transactions on tables without duplicates: cursor.go. The code behind the tests
-- of `isDupSort` and of the flag `DupSort` is left out, and so is what only a write transaction does
-- (`refreshPage` returns at once, `afterDelete` is never set).
pub mod State
pub mod Move
pub mod Entries
pub mod Descend
pub mod Next
pub mod First
pub mod Scan
pub mod Seek
pub mod Sorted
