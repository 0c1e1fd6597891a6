-- ===== src/Txn.antt =====
-- Reading in a transaction: txn.go.
pub mod Mapping
pub mod Duplicates
pub mod Get
pub mod Trees
pub mod Lookup
pub mod Refine
pub mod GetFast
pub mod Agree
pub mod FastTree
