-- ===== src/Server/Forwarding/Examples.antt =====
-- A subscription that hands on one message, and one that ends too early.
use arke.Common.{◌≡◌, refl, true, false, none, some, List, [], ◌∷◌, ◌++◌, map}
use arke.Common.Int.{pos}
use arke.Api.{Message}
use arke.Server.Forwarding.Defs.{
  messages_closed, queue_loop, stream_handler, Forwarding, putting, recovered, takes, sends, has,
  puts, Move, forwards, provides, step, run, new_forwarding, addressed, sender_step, source_step,
}
use arke.Server.Forwarding.Forwarded.{in_hand, run-InOrder}
use arke.Server.Forwarding.Crash.{ends_first, late_message}

abbrev alert : Message
alert = record {
  uuid = "1";
  headers = [];
  body = 1 ∷ [];
  address = none;
  persistent = false;
  error = none;
  confirm = false;
  publish_id = pos 0;
  publisher_name = "";
}

-- One message is sent and another one is on the channel.
abbrev two_messages : List Move
two_messages =
    provides (has alert)
    ∷ provides puts
    ∷ forwards takes
    ∷ provides (has alert)
    ∷ provides puts
    ∷ forwards (sends none)
    ∷ []

abbrev after : List Move → Forwarding
after moves = elim (run stream_handler none moves new_forwarding) [
  | none ↦ new_forwarding
  | some s ↦ s
]

runs : run stream_handler none two_messages new_forwarding ≡ some (after two_messages)
unfolding run step sender_step source_step new_forwarding
runs = refl

run-InOrder_example :
    map (addressed none) (after two_messages).put
    ≡ (after two_messages).sent
      ++ map (addressed none) (in_hand (after two_messages).sender ++ (after two_messages).buffer)
run-InOrder_example = run-InOrder stream_handler none two_messages (after two_messages) runs

abbrev late : Forwarding
late = record new_forwarding { source = putting alert }

late_message_example :
    (run stream_handler none ends_first late
      ≡ some (record late { loop = messages_closed; crashed = true }))
    × ((x : Move)
        → step stream_handler none x (record late { loop = messages_closed; crashed = true })
          ≡ none)
    × (run queue_loop none ends_first late
        ≡ some (record late { loop = messages_closed; source = recovered }))
unfolding new_forwarding
late_message_example = late_message none late alert refl refl refl
