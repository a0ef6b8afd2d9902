-- ===== src/Tuner.antt =====
-- The tuner, of which the search for conflicting sessions is modelled.
pub mod Conflict
