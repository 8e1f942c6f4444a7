-- ===== src/ConcurrentMap.antt =====
-- internal/util/concurrentMap.go: a map with text keys behind a mutex. Each method holds the lock
-- from its first line to its last, so it is one atomic function of the map. The Go map is an
-- association list; the order in which Go ranges over a map is unspecified, and here it is the
-- order of insertion. Defs holds the methods, Laws what the other modules use of them, and Runs
-- the refinement of a plain partial function by any sequence of calls.
mod Defs
mod Laws
pub mod Runs
unfoldable pub use Defs.*
pub use Laws.*
mod Examples
