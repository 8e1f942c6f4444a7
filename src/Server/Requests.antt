-- ===== src/Server/Requests.antt =====
-- The single requests of internal/server/server.go, and the trimming of dead clients.
mod Defs
pub mod Laws
mod Examples
unfoldable pub use Defs.*
