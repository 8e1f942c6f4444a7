-- ===== src/ProcessStats.antt =====
-- internal/util/metrics.go and cgroups.go: the samples of how busy the process is. Defs holds the
-- histories and the limits, and Samples what many rounds leave in the histories.
mod Defs
pub mod Samples
mod Examples
unfoldable pub use Defs.*
