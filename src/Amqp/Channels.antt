-- ===== src/Amqp/Channels.antt =====
-- internal/provider/connectors/amqp091/amqp091shim.go: a channel that outlives the library's channels.
-- Defs holds the connection and the channel, SetUp what an
-- operation on a channel finds, Publishes what it takes for Publish to succeed, and Notify the
-- goroutines that pass on that a channel or a connection has closed.
mod Defs
pub mod SetUp
pub mod Publishes
pub mod Notify
mod Examples
unfoldable pub use Defs.*
