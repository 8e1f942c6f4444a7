-- ===== src/Lib.antt =====
-- Arke is a gRPC service between applications and a message broker. A client connects, and then
-- publishes to addresses or consumes from sources; a provider carries that out on RabbitMQ.
--
-- Common holds what the other files share. Api models the messages of api/arke.pb.go.
--
-- ConcurrentMap models internal/util/concurrentMap.go, the map behind a mutex in which the server and
-- the provider keep their state: a record of an association list, and one function for each method,
-- which holds the lock throughout. BlockingPool models internal/util/blocking_pool.go and BlockingLatch
-- internal/util/blocking_latch.go: a goroutine is a program counter, advance is its next access to what
-- the goroutines share, and System is any number of them in any interleaving; counters keep their 32
-- and 64 bits. Identity models the client identifiers of internal/util/util.go.
--
-- Registry models internal/provider/provider.go, which makes a provider by the name of its type and
-- caches it. Server models internal/server/server.go: Backend is the interface through which the
-- server calls the provider, Sessions connects and disconnects clients, Consume is the loop over what
-- a consuming client sends, and Requests holds the single requests and the trimming of dead clients.
-- The rounds of connecting are recursion on the number of attempts that the configuration allows.
-- Three step relations take the goroutines of the server apart, with moves in any order and no bound on
-- their number: Streaming is Publish with its readers, whose shared variables msg and err
-- are taken to be each reader's own, and the provider's Publish, Forwarding is
-- Consume with the goroutine that hands deliveries on and the provider's side, and Health is Check with
-- the goroutine that passes on what the autoscaler says. A step that needs two goroutines, as on a
-- channel without a buffer, is one move.
--
-- Amqp models the provider in internal/provider/connectors/amqp091. Wire is what the provider says to
-- the broker: a log of commands, and answers that are an unknown function of the log, so that what is
-- proved holds for every broker. Client is the part of BrokerDetails that these operations change, and
-- the actions on it. Names and Headers model the small functions on sources, addresses and message
-- headers, Declare models declareExchange, declareQueue and declareBinding, and Settle models Ack,
-- Nack, Retry and DeadLetter. The functions of Settle are calls that run undisturbed.
-- Settle/Once puts deliveries and calls into one step relation, in which a call settles a message in one
-- step, with all that it says to the broker, and deletes it from the map in another, and which counts
-- the calls on a message that another is settling; a delivery's tag stands for the delivery, its channel included.
-- Settle/Overlap has two calls of Ack on the same message. Connection models connecting, the watcher that connects again,
-- disconnecting, and the cleaner of idle clients; Publish models PublishOne, and Subscribe the setup
-- and the loop of queueSubscribe. The watcher's loop is recursion on a list with one
-- entry for each round. Streams models compression.go, its two uses, the pools of publishers in
-- streamshim.go, whose GetPublisher and PutPublisher run over BlockingPool, and streamSubscribe, whose
-- handler is put together with BlockingLatch and Settle.
-- Channels models the channels of amqp091shim.go over a client library whose answers are an unknown
-- function of the calls so far, and Management the requests to RabbitMQ's management API with SourceStats
-- and the loading of exchanges; their answers are decoded JSON.
-- Delivery fills the server's interface with the provider's operations.
--
-- Server/Metrics models internal/server/prometheus/interceptors.go, over a sink that keeps what it is given.
-- RateLimiter models internal/server/ratelimiter/ratelimiter.go, which gives each client its own bucket
-- of tokens. SafeBuffer models internal/util/safe_buffer.go, ProcessStats internal/util/metrics.go and
-- cgroups.go with a round of processMonitor_linux.go, without the availability, which is worked out in
-- floating point, and Hpa the loop of internal/util/k8s.go. Service models the builder in pkg/arke/arke.go and
-- run in cmd/serve.go: durations are int64 with their wrap-around. Messages models the message catalogues
-- of i18n.
--
-- Code outside the repository is a parameter: the factory of a provider, SHA-256, the broker and its
-- management API, the client libraries, gzip, and the library of token buckets. Time and sleeping,
-- logging, the sink of Prometheus, and the recovered panics of client libraries are left out.
--
-- Not modelled: api/arke_grpc.pb.go, which is generated; the logging and tracing of internal/util; the
-- Prometheus server of internal/metrics/prometheus; and the terminal tool tools/anarkey and the examples, which
-- only use the service.
pub mod Amqp
pub mod Api
pub mod BlockingLatch
pub mod BlockingPool
pub mod Common
pub mod ConcurrentMap
pub mod Delivery
pub mod Hpa
pub mod Identity
pub mod Messages
pub mod ProcessStats
pub mod RateLimiter
pub mod Registry
pub mod SafeBuffer
pub mod Server
pub mod Service
