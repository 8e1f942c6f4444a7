-- ===== src/Amqp/Management.antt =====
-- RabbitMQ's management API as internal/provider/connectors/amqp091/amqp091.go uses it.
mod Defs
pub mod Stats
pub mod Errors
pub mod Exchanges
mod Examples
unfoldable pub use Defs.*
