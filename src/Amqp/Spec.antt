-- ===== src/Amqp/Spec.antt =====
-- The methods of spec091.go: one struct for each, in files by class.
pub mod Bits
pub mod Connection
pub mod Control
pub mod Exchange
pub mod Queue
pub mod Consume
pub mod Content
pub mod Settle
pub mod Ids
pub mod Waits
pub mod Message
