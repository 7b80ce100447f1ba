-- ===== src/Engine.antt =====
-- internal/engine: where the shards of an object go, and how they are coded.
pub mod Placement
pub mod Nodes
pub mod Coder
pub mod Layouts
pub mod Blobs
