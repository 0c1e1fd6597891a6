-- ===== src/Meta.antt =====
-- Meta pages: meta.go, and `updateMeta` of txn.go.
pub mod Format
pub mod Trees
pub mod Triple
pub mod Scanning
pub mod Select
pub mod Accept
pub mod Update
pub mod Crash
