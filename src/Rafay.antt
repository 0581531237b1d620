-- ===== src/Rafay.antt =====
-- pkg/rafay: provider IDs, the broker client and the node batcher.
pub mod ProviderId
pub mod Errors
pub mod BrokerClient
pub mod Batcher
pub mod Delivery
