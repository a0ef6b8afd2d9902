-- ===== src/Memory.antt =====
-- The sessions that are held in RAM: their labels in the search index and their eviction.
pub mod Experience
pub mod Consolidation
pub mod Labels
pub mod Dissolver
