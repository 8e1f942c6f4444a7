-- ===== src/Server/Consume.antt =====
-- Consume of internal/server/server.go: the messages of a client's stream, one after another. Defs
-- holds the loop, Acks the goroutine that settles one message, and Laws what a stream does at most
-- once and what its client may rely on.
mod Defs
mod Acks
pub mod Laws
unfoldable pub use Defs.*
unfoldable pub use Acks.*
mod Examples
