-- ===== src/Server/Metrics.antt =====
-- internal/server/prometheus/interceptors.go: Defs models the two interceptors and the wrapped stream over a
-- sink that keeps what it is given, Names the names of the methods, and Counted what a stream counts.
pub mod Defs
pub mod Names
pub mod Counted
mod Examples
