-- ===== src/Server.antt =====
-- internal/server/server.go: the gRPC services in front of a provider. Backend is the interface of a
-- provider that the services take as a parameter; Sessions models connecting, disconnecting and the
-- lookup of a client's provider; Consume the loop over what a consuming client sends; Forwarding the
-- goroutines that hand deliveries on; Streaming a publishing client's stream step by
-- step; Requests the unary requests and the removal of dead clients; Health the
-- health streams; Metrics what the interceptors count.
pub mod Backend
pub mod Sessions
pub mod Consume
pub mod Health
pub mod Requests
pub mod Streaming
pub mod Forwarding
pub mod Metrics
