-- ===== src/Node.antt =====
-- Nodes of a page: node.go.
pub mod Fields
pub mod Reads
pub mod Object
pub mod Direct
pub mod Raw
pub mod Unchecked
pub mod Fast
pub mod Variants
