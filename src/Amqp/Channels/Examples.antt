-- ===== src/Amqp/Channels/Examples.antt =====
-- A channel that the broker closes, for the theorems on channels.
use arke.Common.{
  ◌≤◌, ◌≡◌, refl, true, false, ◌&&◌, none, some, [], ◌∷◌, ◌++◌, length, ok, ltb, ◌==◌,
}
use arke.Amqp.Wire.{Properties}
use arke.Common.Int.{pos}
use arke.Amqp.Channels.Defs.{
  Operation, exchange_declare, opens, asks, confirms, qos, operates, Log, Library, Channel,
  new_channel, set_prefetch, operate, ensure_channel, set_qos, adopt, then_operate,
  publish_deferred, publish_on, confirmed,
}
use arke.Amqp.Channels.SetUp.{Reach, made, limits, Configured, operate-Configured}
use arke.Amqp.Channels.Notify.{
  Receiver, ticks, channel_notify_close_loop, open_ticks, closed_text,
  channel_notify_close_loop_ends,
}

-- The first channel is closed after the prefetch has been set.
abbrev closing : Library
closing = record {
  answer = λ _ _. none;
  is_closed = λ log k. k == 0 && ltb 3 (length log);
  confirmation = λ _. some true;
}

abbrev first : Channel
first = record { channel = 0; prefetch = pos 0; confirm = true }

abbrev limited : Channel
limited = record { channel = 0; prefetch = pos 5; confirm = true }

abbrev before : Log
before = qos 0 (pos 5) ∷ asks 0 ∷ confirms 0 ∷ opens ∷ []

first_made : new_channel closing true [] ≡ (ok first, confirms 0 ∷ opens ∷ [])
unfolding new_channel
first_made = refl

five_set : set_prefetch closing (pos 5) first (confirms 0 ∷ opens ∷ []) ≡ (ok tt, limited, before)
unfolding set_prefetch ensure_channel set_qos
five_set = refl

ready : Reach closing true limited before
ready = limits (pos 5) (ok tt) (made [] first_made) five_set

abbrev declares : Operation
declares = exchange_declare "events" "topic" false

-- Channel 5 takes its place.
reopened : operate closing declares limited before ≡ (
  ok tt,
  record { channel = 5; prefetch = pos 5; confirm = true },
  operates 5 declares ∷ qos 5 (pos 5) ∷ confirms 5 ∷ opens ∷ asks 0 ∷ before,
)
unfolding operate ensure_channel set_qos adopt then_operate new_channel
reopened = refl

operate-Configured_example : Configured closing declares true limited (
  record { channel = 5; prefetch = pos 5; confirm = true },
  operates 5 declares ∷ qos 5 (pos 5) ∷ confirms 5 ∷ opens ∷ asks 0 ∷ before,
)
operate-Configured_example = operate-Configured closing declares ready reopened

abbrev plain : Properties
plain = record { delivery_mode = 2; content_type = ""; content_encoding = "" }

abbrev sends : Operation
sends = publish_deferred "events" "high" plain [] (7 ∷ [])

published : publish_on closing "events" "high" plain [] (7 ∷ []) limited before ≡ (
  ok tt,
  record { channel = 5; prefetch = pos 5; confirm = true },
  operates 5 sends ∷ qos 5 (pos 5) ∷ confirms 5 ∷ opens ∷ asks 0 ∷ before,
)
unfolding publish_on confirmed operate ensure_channel set_qos adopt then_operate new_channel
published = refl

abbrev room : Receiver
room = record { queue = []; capacity = 1 }

channel_notify_close_loop_ends_example :
    let (ended, r') = channel_notify_close_loop "reader" (open_ticks 3 ++ (ticks true ∷ [])) room in
    (ended ≡ true)
    × (length r'.queue ≤ 1)
    × (r' ≡ (channel_notify_close_loop "reader" (ticks true ∷ []) room).1)
    × (ticks true ≡ ticks true → ltb 0 1 ≡ true → r'.queue ≡ [] ++ (closed_text "reader" ∷ []))
channel_notify_close_loop_ends_example =
    channel_notify_close_loop_ends "reader" 3 (ticks true) [] room refl
