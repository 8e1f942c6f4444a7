-- ===== src/Server/Forwarding.antt =====
-- Consume of internal/server/server.go: how the messages of the provider reach the client, and how the stream
-- ends. Defs holds the steps, Forwarded that the messages keep their order, and Crash what a message
-- of a stream does to a Consume that ends.
mod Defs
pub mod Forwarded
pub mod Crash
mod Examples
unfoldable pub use Defs.*
