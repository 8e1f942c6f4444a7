-- ===== src/Amqp/Streams.antt =====
-- Streams in internal/provider/connectors/amqp091: Compression models compression.go and the two places
-- that use it, Publishers the pools of publishers in streamshim.go and Pooled the calls that use them,
-- Subscribe how streamSubscribe of amqp091.go begins, and Handle its handler. Tries runs the loop of
-- GetPublisher, Handed puts two calls one after the other, and Reused a call after PutPublisher.
-- Outcomes says what subscribing comes to, Prefetch how many messages are in hand, and Resume where a
-- later subscription goes on.
pub mod Compression
pub mod Publishers
pub mod Pooled
pub mod Tries
pub mod Handed
pub mod Reused
pub mod Subscribe
pub mod Handle
pub mod Prefetch
pub mod Outcomes
pub mod Resume
mod Examples
