-- ===== src/Amqp/Connection.antt =====
-- The life of a client's connection to the broker in internal/provider/connectors/amqp091/amqp091.go and
-- cleaner.go. Defs holds connecting and disconnecting, Laws what a connection attempt leaves, Watcher
-- the goroutine that connects again, and Cleaner the one that disconnects idle clients.
mod Defs
pub mod Laws
pub mod Watcher
pub mod Cleaner
mod Examples
unfoldable pub use Defs.*
