-- ===== src/Stellar.antt =====
-- The Stellar monitor, Backend/src/stellar-monitor: events, webhook consumers, deliveries.
pub mod Events
pub mod Consumers
pub mod Delivery
