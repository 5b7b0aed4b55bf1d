-- ===== src/Engine.antt =====
-- The storage engine of src/storage.
pub mod Bloom
pub mod Merging
