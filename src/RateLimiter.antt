-- ===== src/RateLimiter.antt =====
-- internal/server/ratelimiter/ratelimiter.go: a bucket of tokens for each client. A bucket is an unknown
-- of the library golang.org/x/time/rate: `fresh` makes a full one, and `allow` takes a token at a time,
-- if there is one. Defs holds the manager, and Buckets that clients do not share buckets.
mod Defs
pub mod Buckets
mod Examples
unfoldable pub use Defs.*
