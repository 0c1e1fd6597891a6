-- ===== src/Lock.antt =====
-- The table of readers in the lock file: lock.go.
pub mod Table
pub mod Oldest
pub mod Acquire
pub mod Stale
pub mod Steps
