-- ===== src/BlockingPool.antt =====
-- internal/util/blocking_pool.go: the pool that hands out at most `limit` items. Defs holds the
-- pool and the steps of `Get` and `Put`, System any number of goroutines in any interleaving,
-- Slots what every reachable state keeps, and Leaks what happens to a slot whose item is lost.
mod Defs
mod System
pub mod Slots
pub mod Leaks
unfoldable pub use Defs.*
pub use System.*
mod Examples
