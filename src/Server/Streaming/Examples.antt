-- ===== src/Server/Streaming/Examples.antt =====
-- Concrete calls of Publish.
use arke.Common.{◌+◌, ◌≤◌, arith, ◌≡◌, refl, true, false, none, some, List, [], ◌∷◌, length, All}
use arke.Api.{AddressType, Error, error_text, Message}
use arke.Common.Int.{pos}
use arke.Server.Streaming.Defs.{
  finished, failing, Streaming, message, end_of_stream, delivered, receives, sends, read, hand,
  hear, see_closed, looks, hands, answers, sees_closed, loops, publishes, returns, turn, Move,
  reads, turns, step, run, new_streaming,
}
use arke.Server.Streaming.Answered.{weight, messages_answered}
use arke.Server.Streaming.Sound.{HonestReply}
use arke.Server.Streaming.Honest.{success_published}
use arke.Server.Streaming.Stuck.{publish_never_returns}

abbrev order : Message
order = record {
  uuid = "1";
  headers = [];
  body = 1 ∷ [];
  address = some (record {
    node = record {
      name = "events";
      subjects = "orders" ∷ [];
      kind = AddressType.topic;
      auto_delete = false;
    };
    ancestors = [];
  });
  persistent = false;
  error = none;
  confirm = false;
  publish_id = pos 0;
  publisher_name = "";
}

-- One message is published and answered.
abbrev one_message : List Move
one_message =
    turns (looks true)
    ∷ reads 0 (receives (message order))
    ∷ turns hands
    ∷ turns (publishes none)
    ∷ turns answers
    ∷ reads 0 (sends delivered)
    ∷ []

abbrev whole_call : List Move
whole_call =
    turns (looks true)
    ∷ reads 0 (receives (message order))
    ∷ turns hands
    ∷ turns (publishes none)
    ∷ turns answers
    ∷ reads 0 (sends delivered)
    ∷ reads 0 (receives end_of_stream)
    ∷ turns sees_closed
    ∷ turns loops
    ∷ []

abbrev after : List Move → Streaming
after moves = elim (run moves new_streaming) [ none ↦ new_streaming | some s ↦ s ]

whole_call_runs : run whole_call new_streaming ≡ some (after whole_call)
unfolding run step turn read hand hear see_closed new_streaming
whole_call_runs = refl

whole_call_ends : ((after whole_call).main ≡ finished) × (length (after whole_call).replies ≡ 1)
unfolding run step turn read hand hear see_closed new_streaming
whole_call_ends = (refl, refl)

one_reader : (after whole_call).next ≤ 1
unfolding run step turn read hand hear see_closed new_streaming
one_reader = omega arith

messages_answered_example :
    (after whole_call).received
    ≡ length (after whole_call).replies + weight ((after whole_call).readers 0)
messages_answered_example =
    messages_answered whole_call (after whole_call) whole_call_runs one_reader

success_published_example : All (HonestReply (after whole_call).handled) (after whole_call).replies
success_published_example =
    success_published whole_call (after whole_call)
      (tt, (refl, (tt, (tt, (tt, (tt, (tt, (tt, (tt, tt))))))))) whole_call_runs

abbrev lost : Error
lost = error_text "Connection to broker closed"

publish_never_returns_example :
    (s' : Streaming) × (run
        (turns (returns (some lost)) ∷ reads 0 (receives end_of_stream) ∷ [])
        (after one_message)
      ≡ some s')
    × ((moves : List Move) (s'' : Streaming) → run moves s' ≡ some s'' → s''.main ≡ failing 0 lost)
unfolding run step turn read hand hear new_streaming
publish_never_returns_example =
    publish_never_returns (after one_message) 0 lost end_of_stream refl refl refl
