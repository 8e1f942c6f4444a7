-- ===== src/Server/Metrics/Counted.antt =====
-- What StreamInterceptor of internal/server/prometheus/interceptors.go adds to the counters.
use arke.Common.{
  ℕ, suc, ◌+◌, String, Bool, false, ◌&&◌, ◌==◌, Option, none, some, List, [], ◌∷◌, ◌≡◌, refl, sym,
  subst, str_eq, eq_refl, arith, if◌then◌else◌,
}
use arke.ConcurrentMap.{lookup}
use arke.Server.Metrics.Defs.{
  Metric, Sink, Call, status_of, stream_call, stream_calls, stream_interceptor, plain_name,
  method_name,
}
use arke.Server.Metrics.Names.{method_name-plain_name}

unfoldable pub number : Metric → ℕ
number Metric.request_elapsed = 0
number Metric.request_total = 1
number Metric.recv_msg = 2
number Metric.send_msg = 3

-- A value stands for a label.
abbrev pub has : String → String → List (String × String) → Bool
has label value labels = elim (lookup label labels) [ none ↦ false | some v ↦ str_eq v value ]

-- How often a metric was given with a method.
unfoldable pub for_method : Metric → String → Sink → ℕ
for_method k name [] = 0
for_method k name ((m, labels) ∷ sink) =
    let rest = for_method k name sink in
    if number m == number k && has "method" name labels then suc rest else rest

-- How often a metric was given with a method and a status.
unfoldable pub with_outcome : Metric → String → String → Sink → ℕ
with_outcome k name status [] = 0
with_outcome k name status ((m, labels) ∷ sink) =
    let rest = with_outcome k name status sink in
    if number m == number k && (has "method" name labels && has "status" status labels)
    then suc rest
    else rest

-- How many of the calls are of a kind and have a status.
unfoldable pub calls_with : Metric → String → List Call → ℕ
calls_with k status [] = 0
calls_with k status (Call.recv e ∷ cs) =
    let rest = calls_with k status cs in
    if number Metric.recv_msg == number k && str_eq (status_of e) status then suc rest else rest
calls_with k status (Call.send e ∷ cs) =
    let rest = calls_with k status cs in
    if number Metric.send_msg == number k && str_eq (status_of e) status then suc rest else rest

calls-with_outcome :
    (k : Metric) (name status : String) (cs : List Call) (sink : Sink)
    → with_outcome k name status (stream_calls name cs sink)
      ≡ with_outcome k name status sink + calls_with k status cs
unfolding stream_calls stream_call with_outcome calls_with
calls-with_outcome k name status [] sink = omega arith
calls-with_outcome k name status (Call.recv e ∷ cs) sink =
    let rest = calls-with_outcome k name status cs (stream_call name (Call.recv e) sink) in
    ground (arith, rest, eq_refl name)
calls-with_outcome k name status (Call.send e ∷ cs) sink =
    let rest = calls-with_outcome k name status cs (stream_call name (Call.send e) sink) in
    ground (arith, rest, eq_refl name)

calls-for_method :
    (name : String) (cs : List Call) (sink : Sink)
    → for_method Metric.request_total name (stream_calls name cs sink)
      ≡ for_method Metric.request_total name sink
unfolding stream_calls stream_call for_method number
calls-for_method name [] sink = refl
calls-for_method name (Call.recv e ∷ cs) sink = calls-for_method name cs _
calls-for_method name (Call.send e ∷ cs) sink = calls-for_method name cs _

no_requests : (status : String) (cs : List Call) → calls_with Metric.request_total status cs ≡ 0
unfolding calls_with number
no_requests status [] = refl
no_requests status (Call.recv e ∷ cs) = no_requests status cs
no_requests status (Call.send e ∷ cs) = no_requests status cs

-- How the counters of a method differ after a stream with calls `cs` that ended with `e`, for one status.
abbrev pub Counts : String → Sink → Sink → List Call → Option String → String → Type 0
Counts name sink after cs e status =
    (with_outcome Metric.recv_msg name status after
      ≡ with_outcome Metric.recv_msg name status sink + calls_with Metric.recv_msg status cs)
    × (with_outcome Metric.send_msg name status after
        ≡ with_outcome Metric.send_msg name status sink + calls_with Metric.send_msg status cs)
    × (for_method Metric.request_total name after ≡ for_method Metric.request_total name sink + 2)
    × (with_outcome Metric.request_total name status after
        ≡ with_outcome Metric.request_total name status sink
          + (if str_eq (status_of e) status then 1 else 0))

plain_name-Counts :
    (full_method : String) (cs : List Call) (e : Option String) (status : String) (sink : Sink)
    → Counts (plain_name full_method) sink (stream_interceptor full_method cs e sink).1 cs e status
unfolding stream_interceptor for_method with_outcome number calls_with
plain_name-Counts full_method cs e status sink =
    let name = plain_name full_method in
    let started : Sink = (Metric.request_total, ("method", name) ∷ []) ∷ sink in
    (
      calls-with_outcome Metric.recv_msg name status cs started,
      calls-with_outcome Metric.send_msg name status cs started,
      ground (arith, calls-for_method name cs started, eq_refl name),
      ground (
        arith,
        calls-with_outcome Metric.request_total name status cs started,
        no_requests status cs,
        eq_refl name,
      ),
    )

-- A stream's counters carry the name that methodMap has for its method. They go up by one for each
-- RecvMsg and each SendMsg, under the status of the call's own error. The counter of requests goes up
-- by two for the one stream, once of these with the status of the handler's error.
pub stream_interceptor-Counts :
    (full_method : String) (cs : List Call) (e : Option String) (status : String) (sink : Sink)
    → Counts (method_name full_method) sink (stream_interceptor full_method cs e sink).1 cs e status
stream_interceptor-Counts full_method cs e status sink =
    subst (λ name. Counts name sink (stream_interceptor full_method cs e sink).1 cs e status)
      (sym (method_name-plain_name full_method)) (plain_name-Counts full_method cs e status sink)
