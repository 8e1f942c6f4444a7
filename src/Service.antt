-- ===== src/Service.antt =====
-- pkg/arke/arke.go and run of cmd/serve.go: how a server is put together from its settings. Defs holds
-- the builder, Settings what it makes of them, and Serving how the server listens and stops.
mod Defs
pub mod Settings
pub mod Serving
mod Examples
unfoldable pub use Defs.*
