-- ===== src/Server/Forwarding/Crash.antt =====
-- What a message of the provider does to a Consume of internal/server/server.go that ends.
use arke.Common.{
  ◌≡◌, refl, ap, ◌∙◌, arith, true, false, Option, none, some, List, [], ◌∷◌, if◌then◌else◌,
}
use arke.Api.{Address, Message}
use arke.Server.Forwarding.Defs.{
  Loop, running, leaving, cancelled, messages_closed, Kind, queue_loop, stream_handler, recovered,
  putting, Forwarding, messages_open, LoopMove, client_gone, cancels, closes_messages, loop_step,
  puts, put_message, source_step, Move, loops, provides, step, run,
}

-- The client goes away, and the deferred functions run as far as closing the channel of messages; then the
-- provider puts its message there.
abbrev pub ends_first : List Move
ends_first = loops client_gone ∷ loops cancels ∷ loops closes_messages ∷ provides puts ∷ []

run_cons :
    (kind : Kind) (a : Option Address) (m : Move) (moves : List Move) (s t : Forwarding)
    → step kind a m s ≡ some t
    → run kind a (m ∷ moves) s ≡ run kind a moves t
unfolding run
run_cons kind a m moves s t e = ground (arith, e)

unless_crashed :
    (s : Forwarding) (o : Option Forwarding)
    → s.crashed ≡ false
    → (if s.crashed then none else o) ≡ o
unless_crashed s o c = ground (arith, c)

loop_lem :
    (kind : Kind) (a : Option Address) (x : LoopMove) (l : Loop) (s : Forwarding)
    → s.crashed ≡ false
    → s.loop ≡ l
    → step kind a (loops x) s ≡ loop_step x l s
unfolding step
loop_lem kind a x l s c e = unless_crashed s (loop_step x s.loop s) c ∙ ap (λ y. loop_step x y s) e

puts_lem :
    (kind : Kind) (a : Option Address) (m : Message) (s : Forwarding)
    → s.crashed ≡ false
    → s.source ≡ putting m
    → step kind a (provides puts) s ≡ put_message kind (messages_open s.loop) m s
unfolding step source_step
puts_lem kind a m s c e =
    unless_crashed s (source_step kind puts s.source s) c ∙ ap (λ y. source_step kind puts y s) e

ends_first_lem :
    (kind : Kind) (a : Option Address) (s u : Forwarding) (m : Message)
    → s.crashed ≡ false
    → s.loop ≡ running
    → s.source ≡ putting m
    → put_message kind false m (record s { loop = messages_closed }) ≡ some u
    → run kind a ends_first s ≡ some u
unfolding run loop_step
ends_first_lem kind a s u m c l e h =
    let one : Forwarding = record s { loop = leaving } in
    let two : Forwarding = record s { loop = cancelled } in
    let three : Forwarding = record s { loop = messages_closed } in
    run_cons kind a (loops client_gone) (loops cancels ∷ loops closes_messages ∷ provides puts ∷ [])
      s one (loop_lem kind a client_gone running s c l)
    ∙ run_cons kind a (loops cancels) (loops closes_messages ∷ provides puts ∷ []) one two
        (loop_lem kind a cancels leaving one c refl)
    ∙ run_cons kind a (loops closes_messages) (provides puts ∷ []) two three
        (loop_lem kind a closes_messages cancelled two c refl)
    ∙ run_cons kind a (provides puts) [] three u (puts_lem kind a m three c e ∙ h)

-- Whenever the provider is about to put a message on the channel, the client can go away first. The
-- message then meets a closed channel: for a stream the panic ends the whole server, and no step follows;
-- for a queue the subscription recovers and the rest is as before.
pub late_message :
    (a : Option Address) (s : Forwarding) (m : Message)
    → s.crashed ≡ false
    → s.loop ≡ running
    → s.source ≡ putting m
    → (run stream_handler a ends_first s
        ≡ some (record s { loop = messages_closed; crashed = true }))
      × ((x : Move)
          → step stream_handler a x (record s { loop = messages_closed; crashed = true }) ≡ none)
      × (run queue_loop a ends_first s
          ≡ some (record s { loop = messages_closed; source = recovered }))
unfolding step put_message
late_message a s m c l e = (
  ends_first_lem stream_handler a s _ m c l e refl,
  λ x. refl,
  ends_first_lem queue_loop a s _ m c l e refl,
)
