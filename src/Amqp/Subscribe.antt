-- ===== src/Amqp/Subscribe.antt =====
-- Subscribing to a queue in internal/provider/connectors/amqp091/amqp091.go: Setup is what comes before
-- the loop of queueSubscribe, Deliver what the loop does with one delivery, and Loop the loop.
mod Setup
mod Deliver
pub mod Laws
pub mod Handed
mod Examples
unfoldable pub use Setup.*
unfoldable pub use Deliver.*
