-- ===== src/Amqp/Management/Stats.antt =====
-- SourceStats, getStreamOrQueueStats and the two updates for a stream in
-- internal/provider/connectors/amqp091/amqp091.go.
use Prim.Native.String.{◌++◌ as append}
use arke.Common.{
  ℕ, String, Bool, true, false, ◌&&◌, Option, none, some, Fallible, ok, err, str_eq, is_some,
  if◌then◌else◌,
}
use arke.Common.Int.{ℤ, pos}
use arke.Common.Query.{query_escape}
use arke.Api.{error_text, SourceType, quorum_queue, stream_source, Source, ConnectionConfiguration}
use arke.Amqp.Declare.{address_name}
use arke.Amqp.Names.{source_name}
use arke.Amqp.Streams.Subscribe.{get_consumer_name}
use arke.Amqp.Management.Defs.{
  Json, number, Fields, Body, Http, tenant_of, management_request, lookup_field, unmarshal_object,
  Metrics, unmarshal_metrics, SourceStats, no_stats, failed_stats,
}

-- The number of consumers; a field that is not a number is a panic.
unfoldable pub consumers : Option Json → Option ℤ
consumers none = some (pos 0)
consumers (some (number n)) = some n
consumers (some _) = none

unfoldable pub with_rates : Metrics → SourceStats → SourceStats
with_rates m stats =
    if m.decoded
    then record stats { publish_rate = m.publish_rate; deliver_rate = m.deliver_rate }
    else stats

unfoldable pub with_error : Option String → SourceStats → SourceStats
with_error none stats = stats
with_error (some e) stats = record stats { error = some (error_text e) }

unfoldable pub stats_urn : ConnectionConfiguration → Source → String
stats_urn cf s =
    append "/api/queues/"
      (append (query_escape (tenant_of cf)) (append "/" (query_escape (source_name s))))

abbrev pub is_stream_source : SourceType → Bool
is_stream_source stream_source = true
is_stream_source _ = false

-- `query_offset` is GetConsumerOffset for a stream and a consumer without its error, and `stream_offset` is
-- GetStreamOffset.
module _ (query_offset : String → String → ℤ) (stream_offset : String → Fallible ℤ) where
  unfoldable pub update_current_offset : Source → SourceStats → SourceStats
  update_current_offset s stats = elim (get_consumer_name s) [
    | err e ↦ record stats { error = some (error_text e) }
    | ok name ↦ record stats { current_offset = query_offset s.name name }
  ]

  unfoldable pub update_stream_offset : Source → SourceStats → SourceStats
  update_stream_offset s stats = elim (stream_offset s.name) [
    | err e ↦ record stats { error = some (error_text e) }
    | ok n ↦ record stats { last_offset = n }
  ]

  unfoldable pub update_stats_for_stream : Source → SourceStats → SourceStats
  update_stats_for_stream s stats = update_stream_offset s (update_current_offset s stats)

  unfoldable pub stats_of_kind : SourceType → Metrics → Source → SourceStats → SourceStats
  stats_of_kind quorum_queue m s stats = record stats { message_count = m.messages }
  stats_of_kind stream_source m s stats = update_stats_for_stream s stats
  stats_of_kind _ m s stats = stats

  unfoldable pub counted : Fields → Source → Option String → Option ℤ → Option SourceStats
  unfolding with_rates with_error
  counted f s e none = none
  counted f s e (some n) =
      let m = unmarshal_metrics f in
      some (
        with_error e
          (stats_of_kind s.kind m s (with_rates m (record no_stats { consumer_count = n }))))

  unfoldable pub decoded_stats : Source → Option String → Fallible Fields → Option SourceStats
  unfolding counted
  decoded_stats s e (err m) = some (failed_stats m)
  decoded_stats s e (ok f) = counted f s e (consumers (lookup_field "consumers" f))

  unfoldable pub stats_of_answer : Source → Body × Option String → Option SourceStats
  unfolding decoded_stats
  stats_of_answer s (body, e) = decoded_stats s e (unmarshal_object body)

  module _ (http : Http) (tls : Bool) (admin_port : ℕ) (cf : ConnectionConfiguration) where
    -- None is a panic.
    unfoldable pub get_stream_or_queue_stats : Source → Option SourceStats
    unfolding stats_urn stats_of_answer
    get_stream_or_queue_stats s =
        stats_of_answer s (management_request http tls admin_port cf "GET" (stats_urn cf s))

    -- `details` is the error of getBrokerDetails, and `connection` that of getStreamConnection.
    unfoldable pub source_stats : Option String → Option String → Source → Option SourceStats
    source_stats details connection s =
        if str_eq (address_name s) ""
        then some (failed_stats "address name not defined")
        else (elim details [
          | some e ↦ some (failed_stats e)
          | none ↦
              if is_stream_source s.kind && is_some connection
              then some (failed_stats (elim connection [ none ↦ "" | some e ↦ e ]))
              else get_stream_or_queue_stats s
        ])
