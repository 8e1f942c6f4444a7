-- ===== src/Amqp/Examples.antt =====
-- A filtered queue and its headers, for the theorems on names, headers and declarations.
use arke.Common.{◌≡◌, refl, true, false, String, none, some, [], ◌∷◌, ok}
use arke.Common.Int.{pos}
use arke.ConcurrentMap.{new_concurrent_map, add, get, lookup}
use arke.Api.{AddressType, Filter, Source, SourceType}
use arke.Amqp.Wire.{Broker, Command}
use arke.Amqp.Headers.{HeaderValue, Table}
use arke.Amqp.Client.{Client}
use arke.Amqp.Declare.{
  cleanup_bindings, cleanup, say_all, subject_bindings, match_headers_list, match_headers,
  declare_binding, binding_subjects, bindings_of, binding_key,
}
use arke.Amqp.Declare.Filters.{argument}
use arke.Amqp.Declare.Bindings.{
  said, deletions, each_with, routing_keys, arguments, declare_binding_lem,
}

abbrev alerts : Source
alerts = record {
  name = "alerts";
  address = some (record {
    node = record {
      name = "events";
      subjects = "high" ∷ [];
      kind = AddressType.filter;
      auto_delete = false;
    };
    ancestors = [];
  });
  auto_delete = true;
  options = ("DeadLetterAddress", "dead") ∷ [];
  exclusive = false;
  prefetch_count = pos 1;
  kind = SourceType.quorum_queue;
  declare_only = false;
  single_active_consumer = false;
  filters = record { matches = ("colour", "red") ∷ []; any_match = true } ∷ [];
}

-- It lists a binding that the source has, and one that is left from before.
abbrev lists_two : Broker
lists_two = record {
  answer = λ _ _. none;
  current_offset = λ _ _ _. 0;
  bindings = λ _ _ _.
      record { routing_key = "high"; properties_key = "k1" }
      ∷ record { routing_key = "low"; properties_key = "k2" }
      ∷ [];
}

abbrev connected : Client
connected = record {
  active_messages = new_concurrent_map;
  known_exchanges = new_concurrent_map;
  known_queues = new_concurrent_map;
  known_bindings = new_concurrent_map;
  retry_channel = false;
  log = [];
}

-- The binding "low" is deleted and "high" is not.
deletes_low :
    (declare_binding lists_two alerts true connected).1.log
    ≡ Command.delete_binding "alerts" "events" "k2"
      ∷ Command.queue_bind "alerts" "high" "events" (("colour", "red") ∷ ("x-match", "any") ∷ [])
      ∷ Command.standby_channel
      ∷ []
unfolding declare_binding cleanup_bindings cleanup say_all bindings_of subject_bindings
    binding_subjects match_headers_list match_headers get add new_concurrent_map
deletes_low = refl

not_known : get connected.known_bindings (binding_key lists_two alerts) ≡ none
unfolding get new_concurrent_map
not_known = refl

declare_binding_lem_example :
    let bound =
      said
        (each_with alerts (routing_keys alerts) (arguments alerts))
        (Command.standby_channel ∷ []) in
    (declare_binding lists_two alerts true connected ≡ (
      ok tt,
      record connected {
        known_bindings = add connected.known_bindings (binding_key lists_two alerts) true;
        log =
            said
              (deletions alerts (routing_keys alerts) (lists_two.bindings bound "events" "alerts"))
              bound;
      },
    ))
    × ((f : Filter) (k : String) → lookup k (match_headers f) ≡ argument f k)
unfolding get new_concurrent_map
declare_binding_lem_example = declare_binding_lem lists_two alerts true connected refl refl

abbrev headers : Table
headers = ("x-retry-count", HeaderValue.int64 4) ∷ ("colour", HeaderValue.text "red") ∷ []
