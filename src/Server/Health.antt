-- ===== src/Server/Health.antt =====
-- The health streams of internal/server/server.go. Defs holds the steps, Registered what the map of
-- notifiers holds in every reachable state, and Crash a run that ends the server.
mod Defs
pub mod Registered
pub mod Crash
mod Examples
unfoldable pub use Defs.*
