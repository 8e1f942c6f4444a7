-- ===== src/Server/Sessions.antt =====
-- Connecting and disconnecting clients in internal/server/server.go.
mod Defs
pub mod Laws
pub mod Retries
unfoldable pub use Defs.*
mod Examples
