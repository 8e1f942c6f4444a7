-- ===== src/Server/Metrics/Defs.antt =====
-- The interceptors of internal/server/prometheus/interceptors.go with the label sets of
-- internal/metrics/metrics.go. The times are left out: a sample of `RequestElapsedSummary` stands
-- without its value.
use Prim.Native.String.{◌++◌ as append}
use Prim.Native.Char.{code}
use arke.Common.{String, Option, none, some, List, [], ◌∷◌, ◌==◌, if◌then◌else◌}
use arke.ConcurrentMap.{lookup}

unfoldable pub method_map : List (String × String)
method_map =
    ("/arke.Producer/Publish", "arke.Producer.Publish")
    ∷ ("/arke.Producer/Connect", "arke.Producer.Connect")
    ∷ ("/arke.Producer/Disconnect", "arke.Producer.Disconnect")
    ∷ ("/arke.Producer/PublishOne", "arke.Producer.PublishOne")
    ∷ ("/arke.Consumer/Consume", "arke.Consumer.Consume")
    ∷ ("/arke.Consumer/Connect", "arke.Consumer.Connect")
    ∷ ("/arke.Consumer/Disconnect", "arke.Consumer.Disconnect")
    ∷ ("/arke.Consumer/SourceStats", "arke.Consumer.SourceStats")
    ∷ ("/arke.Healthz/Check", "arke.Healthz.Check")
    ∷ ("/grpc.health.v1.Health/Check", "grpc.health.v1.Health.Check")
    ∷ []

-- `strings.TrimPrefix(s, "/")`
unfoldable pub trim_slash : String → String
trim_slash String.[] = String.[]
trim_slash (String.◌∷◌ c s) = if code c == b'/' then s else String.◌∷◌ c s

-- `strings.ReplaceAll(s, "/", ".")`
unfoldable pub dots_for_slashes : String → String
dots_for_slashes String.[] = String.[]
dots_for_slashes (String.◌∷◌ c s) =
    let rest = dots_for_slashes s in if code c == b'/' then append "." rest else String.◌∷◌ c rest

unfoldable pub plain_name : String → String
plain_name full_method = dots_for_slashes (trim_slash full_method)

unfoldable pub method_name : String → String
method_name full_method = elim (lookup full_method method_map) [
  | some name ↦ name
  | none ↦ plain_name full_method
]

pub data Metric : Type 0 where
  request_elapsed request_total recv_msg send_msg : Metric

-- A counter that goes up by one, or a sample of the summary, with its labels.
abbrev pub Sample : Type 0
Sample = Metric × List (String × String)

-- What the sink was given, the newest first.
abbrev pub Sink : Type 0
Sink = List Sample

abbrev pub status_of : Option String → String
status_of none = "ok"
status_of (some e) = "error"

abbrev pub with_status : String → Option String → List (String × String)
with_status name e = ("method", name) ∷ ("status", status_of e) ∷ []

-- The handler's answer and error are returned as they are.
unfoldable pub unary_interceptor :
    {A : Type 0} → String → A × Option String → Sink → (A × Option String) × Sink
unary_interceptor full_method (m, e) sink =
    let labels = with_status (method_name full_method) e in
    ((m, e), (Metric.request_total, labels) ∷ (Metric.request_elapsed, labels) ∷ sink)

-- What the handler calls on the stream, with the error of each call.
pub data Call : Type 0 where
  recv send : Option String → Call

-- RecvMsg and SendMsg of the wrapped stream.
unfoldable pub stream_call : String → Call → Sink → Sink
stream_call name (Call.recv e) sink = (Metric.recv_msg, with_status name e) ∷ sink
stream_call name (Call.send e) sink = (Metric.send_msg, with_status name e) ∷ sink

-- The calls of a handler, in order.
unfoldable pub stream_calls : String → List Call → Sink → Sink
stream_calls name [] sink = sink
stream_calls name (c ∷ cs) sink = stream_calls name cs (stream_call name c sink)

-- `calls` are what the handler does before it returns `e`.
unfoldable pub stream_interceptor : String → List Call → Option String → Sink → Option String × Sink
stream_interceptor full_method calls e sink =
    let name = plain_name full_method in
    let started = (Metric.request_total, ("method", name) ∷ []) ∷ sink in
    let labels = with_status name e in
    (
      e,
      (Metric.request_total, labels)
          ∷ (Metric.request_elapsed, labels)
          ∷ stream_calls name calls started,
    )
