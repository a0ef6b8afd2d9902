-- ===== src/Models.antt =====
-- src/mnemostroma/models: what is done with the numbers that the neural models give.
pub mod Spans
pub mod Chunks
