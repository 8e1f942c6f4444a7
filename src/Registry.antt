-- ===== src/Registry.antt =====
-- internal/provider/provider.go: provider types registered by name, and the cache of the providers
-- made from them. A factory is an unknown `F`; `make f n` is the provider that calling it returns, or
-- `none` for nil, where `n` counts all factory calls so far, so that no two calls are the same call.
-- `GetProvider` is one step here: two goroutines that call it at once are not interleaved.
mod Defs
pub mod Laws
unfoldable pub use Defs.*
mod Examples
