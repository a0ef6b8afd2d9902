-- ===== src/Subconscious.antt =====
-- The anchors: what remains of a session when its context has decayed.
pub mod Anchors
pub mod Guardian
pub mod Surfacing
