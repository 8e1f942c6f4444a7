-- ===== src/Delivery.antt =====
-- The server and the RabbitMQ provider together: a client's acknowledgement, from the stream of
-- internal/server/server.go to what internal/provider/connectors/amqp091/amqp091.go says to the broker.
-- Provider fills the server's interface with the provider's operations, and Consumed says what an
-- acknowledgement comes to.
mod Provider
pub mod Consumed
unfoldable pub use Provider.*
mod Examples
