-- ===== src/Integration.antt =====
-- src/mnemostroma/integration: what agents and the gateway are given of the memory.
pub mod Proxy
