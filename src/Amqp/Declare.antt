-- ===== src/Amqp/Declare.antt =====
-- Declaring exchanges, queues and bindings in internal/provider/connectors/amqp091/amqp091.go.
mod Exchange
mod Queue
mod Bind
pub mod Filters
pub mod Bindings
pub mod Arguments
unfoldable pub use Exchange.*
unfoldable pub use Queue.*
unfoldable pub use Bind.*
