-- ===== src/Messenger.antt =====
-- The messages between the gate and the servers.
pub mod Messages
pub mod Client
pub mod Subscriptions
pub mod Connection
pub mod Interface
