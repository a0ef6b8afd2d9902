-- ===== src/Observer.antt =====
-- The observer's pipeline, of which the detection of continued sessions is modelled.
pub mod Continuation
