-- ===== src/Amqp.antt =====
-- internal/provider/connectors/amqp091: the RabbitMQ provider. Wire is what it says to the broker and
-- what the broker answers, and Client the state that its operations change; Headers the retry count
-- and the delivery limit in message headers; Names the names and types of sources; Declare exchanges,
-- queues and bindings; Settle how messages that a client has in hand are acknowledged; Connection the
-- life of a connection; Publish and Subscribe what their names say, Streams the same for streams;
-- Channels the channels of the client library; Management the requests to the management API.
pub mod Wire
pub mod Client
pub mod Declare
pub mod Headers
pub mod Names
pub mod Settle
pub mod Channels
pub mod Connection
pub mod Publish
pub mod Subscribe
pub mod Streams
pub mod Management
mod Examples
