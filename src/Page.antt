-- ===== src/Page.antt =====
-- Slotted pages: page.go.
pub mod Header
pub mod Entries
pub mod Shape
pub mod Compact
pub mod Edit
pub mod CompactTo
pub mod Split
