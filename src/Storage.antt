-- ===== src/Storage.antt =====
-- src/mnemostroma/storage: how sessions and contents reach the database.
pub mod Content
pub mod WriteQueue
