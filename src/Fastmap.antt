-- ===== src/Fastmap.antt =====
-- The map from 32-bit keys to pointers: fastmap/fastmap.go.
pub mod Table
pub mod Probe
pub mod Place
pub mod Write
pub mod Grow
pub mod Set
