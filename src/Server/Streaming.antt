-- ===== src/Server/Streaming.antt =====
-- Publish of internal/server/server.go, step by step. Defs holds the steps, Answered that no message is
-- lost, Honest what a success says, and Stuck a call that never returns.
mod Defs
pub mod Runs
pub mod Answered
mod Sound
pub mod Honest
pub mod Stuck
mod Examples
unfoldable pub use Defs.*
