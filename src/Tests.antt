-- ===== src/Tests.antt =====
-- Concrete pages, nodes and meta pages, and the theorems at them.
mod Data
mod Pages
mod Nodes
mod Metas
mod Slots
mod Buffers
mod Updates
mod Trees
mod Cursors
mod Readers
mod Maps
