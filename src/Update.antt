-- ===== src/Update.antt =====
-- The updates through a cursor: cursor_modify.go.
pub mod SubPage
pub mod Duplicates
pub mod State
pub mod Split
