-- ===== src/Amqp/Settle.antt =====
-- Ack, Nack, Retry and DeadLetter of internal/provider/connectors/amqp091/amqp091.go.
mod Defs
mod Retry
pub mod Quiet
mod Laws
pub mod Effects
pub mod Streams
pub mod Begun
pub mod Once
pub mod Overlap
mod Examples
unfoldable pub use Defs.*
unfoldable pub use Retry.*
