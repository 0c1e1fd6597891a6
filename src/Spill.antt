-- ===== src/Spill.antt =====
-- The spill buffer of dirty pages: package spill.
pub mod Bits
pub mod Bitmap
pub mod Buffer
