-- ===== src/Amqp/Publish.antt =====
-- Publishing one message in internal/provider/connectors/amqp091/amqp091.go.
mod Defs
pub mod Laws
mod Examples
unfoldable pub use Defs.*
