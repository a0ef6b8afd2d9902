-- ===== src/Gateway.antt =====
-- src/mnemostroma/gateway: the OpenAI-compatible gateway in front of a provider.
pub mod Json
pub mod Contracts
pub mod Admission
pub mod RequestPolicy
pub mod Plans
pub mod Observation
pub mod Metrics
pub mod Normalize
pub mod Execution
pub mod Outbox
pub mod Routing
pub mod Stream
pub mod Payload
