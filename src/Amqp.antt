-- ===== src/Amqp.antt =====
-- The package amqp of mq/amqpparser: wire format, methods, frames, channels, connections, parser.
pub mod Wire
pub mod Strings
pub mod Field
pub mod Properties
pub mod Spec
pub mod Frame
pub mod Delivery
pub mod Confirms
pub mod Consumers
pub mod Channel
pub mod Connection
pub mod Parser
pub mod Errors
pub mod TagSet
