-- ===== src/BlockingLatch.antt =====
-- internal/util/blocking_latch.go: the latch that keeps the messages of a stream in flight below its
-- maximum. Defs holds the latch and what a goroutine in Increment or WaitForEmpty does between two
-- waits, System any number of goroutines and the context's callbacks, Bounds what every reachable
-- state keeps, and Sleepers the waits that a cancelled context does not end.
mod Defs
mod System
pub mod Bounds
pub mod Sleepers
mod Examples
unfoldable pub use Defs.*
pub use System.*
