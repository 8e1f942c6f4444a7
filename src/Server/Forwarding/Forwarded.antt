-- ===== src/Server/Forwarding/Forwarded.antt =====
-- The client of Consume in internal/server/server.go is sent what the provider puts on the channel, in order.
use mathlib.Core.List.{append_assoc, map-append}
use arke.Common.{
  ◌≡◌, refl, ap, sym, subst, ◌∙◌, arith, Bool, true, false, Option, none, some, List, [], ◌∷◌, ◌++◌,
  map, length, ltb, if◌then◌else◌,
}
use arke.Api.{Address, Message}
use arke.Server.Forwarding.Defs.{
  Loop, running, leaving, cancelled, messages_closed, returned, Sender, waiting, failing, stopping,
  over, sending, Kind, queue_loop, stream_handler, Source, idle, putting, Forwarding, capacity,
  messages_open, is_cancelled, LoopMove, client_gone, stopped, cancels, closes_messages, returns,
  recv_fails, stop_by, loop_step, SenderMove, sees_done, takes, looks, panics, sends, take_first,
  look, panic, addressed, sender_step, SourceMove, has, puts, put_message, has_message, source_step,
  Move, loops, forwards, provides, step, run, new_forwarding,
}

-- The message that the goroutine is sending.
abbrev pub in_hand : Sender → List Message
in_hand (sending m) = m ∷ []
in_hand _ = []

some_inj : {A : Type 0} {a b : A} → some a ≡ some b → a ≡ b
some_inj h = cc h

if_some : {A : Type 0} (b : Bool) (t u : A) → (if b then some t else none) ≡ some u → t ≡ u
if_some true t u h = some_inj h
if_some false t u h = absurd (cc h)

unless_some :
    {A : Type 0} (b : Bool) (o : Option A) (u : A) → (if b then none else o) ≡ some u → o ≡ some u
unless_some true o u h = absurd (cc h)
unless_some false o u h = h

module _ (a : Option Address) where
  InOrder : Forwarding → Type 0
  InOrder s = map (addressed a) s.put ≡ s.sent ++ map (addressed a) (in_hand s.sender ++ s.buffer)

  -- The goroutine has no message in hand before or after.
  empty_hands :
      (s : Forwarding) (p q : Sender)
      → s.sender ≡ p
      → in_hand p ≡ []
      → in_hand q ≡ []
      → InOrder s
      → map (addressed a) s.put ≡ s.sent ++ map (addressed a) (in_hand q ++ s.buffer)
  unfolding InOrder
  empty_hands s p q e f g i =
      i ∙ ap (λ l. s.sent ++ map (addressed a) (l ++ s.buffer)) (ap in_hand e ∙ f ∙ sym g)

  stop_by-InOrder :
      (p : Sender) (s s' : Forwarding)
      → s.sender ≡ p
      → stop_by p s ≡ some s'
      → InOrder s
      → InOrder s'
  unfolding stop_by InOrder
  stop_by-InOrder stopping s s' e h i =
      subst InOrder (some_inj h) (empty_hands s stopping over e refl refl i)
  stop_by-InOrder p s s' e h i = absurd (cc h)

  loop-InOrder :
      (x : LoopMove) (l : Loop) (s s' : Forwarding)
      → loop_step x l s ≡ some s'
      → InOrder s
      → InOrder s'
  unfolding loop_step InOrder
  loop-InOrder client_gone running s s' h i = subst InOrder (some_inj h) i
  loop-InOrder (recv_fails e) running s s' h i = subst InOrder (some_inj h) i
  loop-InOrder stopped running s s' h i = stop_by-InOrder s.sender s s' refl h i
  loop-InOrder cancels leaving s s' h i = subst InOrder (some_inj h) i
  loop-InOrder closes_messages cancelled s s' h i = subst InOrder (some_inj h) i
  loop-InOrder returns messages_closed s s' h i = subst InOrder (some_inj h) i
  loop-InOrder x l s s' h i = absurd (cc h)

  put-InOrder :
      (s : Forwarding) (m : Message)
      → InOrder s
      → InOrder (record s { source = idle; buffer = s.buffer ++ (m ∷ []); put = s.put ++ (m ∷ []) })
  unfolding InOrder
  put-InOrder s m i =
      map-append (addressed a) s.put (m ∷ [])
      ∙ (ap (λ l. l ++ (addressed a m ∷ [])) i
          ∙ rw (append_assoc, map-append, map-append, map-append, append_assoc) refl)

  sent-InOrder :
      (s : Forwarding) (m : Message) (q : Sender)
      → in_hand q ≡ []
      → s.sender ≡ sending m
      → InOrder s
      → map (addressed a) s.put
        ≡ (s.sent ++ (addressed a m ∷ [])) ++ map (addressed a) (in_hand q ++ s.buffer)
  unfolding InOrder
  sent-InOrder s m q f at i =
      i
      ∙ (ap (λ p. s.sent ++ map (addressed a) (in_hand p ++ s.buffer)) at
          ∙ rw (f, append_assoc) refl)

  take_first-InOrder :
      (buffer : List Message) (s s' : Forwarding)
      → s.buffer ≡ buffer
      → s.sender ≡ waiting
      → take_first buffer s ≡ some s'
      → InOrder s
      → InOrder s'
  unfolding take_first InOrder
  take_first-InOrder [] s s' b e h i =
      subst InOrder (some_inj (unless_some (messages_open s.loop) _ s' h))
        (empty_hands s waiting over e refl refl i)
  take_first-InOrder (m ∷ ms) s s' b e h i = subst InOrder (some_inj h) (
      i
      ∙ (ap (λ p. s.sent ++ map (addressed a) (in_hand p ++ s.buffer)) e
          ∙ ap (λ l. s.sent ++ map (addressed a) l) b))

  look-InOrder :
      (l : Loop) (s s' : Forwarding)
      → s.sender ≡ failing
      → look l s ≡ some s'
      → InOrder s
      → InOrder s'
  unfolding look InOrder
  look-InOrder returned s s' e h i =
      subst InOrder (some_inj h) (empty_hands s failing over e refl refl i)
  look-InOrder running s s' e h i =
      subst InOrder (some_inj h) (empty_hands s failing stopping e refl refl i)
  look-InOrder leaving s s' e h i =
      subst InOrder (some_inj h) (empty_hands s failing stopping e refl refl i)
  look-InOrder cancelled s s' e h i =
      subst InOrder (some_inj h) (empty_hands s failing stopping e refl refl i)
  look-InOrder messages_closed s s' e h i =
      subst InOrder (some_inj h) (empty_hands s failing stopping e refl refl i)

  panic-InOrder :
      (l : Loop) (s s' : Forwarding)
      → s.sender ≡ stopping
      → panic l s ≡ some s'
      → InOrder s
      → InOrder s'
  unfolding panic InOrder
  panic-InOrder returned s s' e h i =
      subst InOrder (some_inj h) (empty_hands s stopping over e refl refl i)
  panic-InOrder l s s' e h i = absurd (cc h)

  sender-InOrder :
      (x : SenderMove) (p : Sender) (s s' : Forwarding)
      → s.sender ≡ p
      → sender_step a x p s ≡ some s'
      → InOrder s
      → InOrder s'
  unfolding sender_step InOrder
  sender-InOrder sees_done waiting s s' e h i =
      subst InOrder (if_some (is_cancelled s.loop) _ s' h)
        (empty_hands s waiting over e refl refl i)
  sender-InOrder takes waiting s s' e h i = take_first-InOrder s.buffer s s' refl e h i
  sender-InOrder (sends none) (sending m) s s' e h i =
      subst InOrder (some_inj h) (sent-InOrder s m waiting refl e i)
  sender-InOrder (sends (some t)) (sending m) s s' e h i =
      subst InOrder (some_inj h) (sent-InOrder s m failing refl e i)
  sender-InOrder looks failing s s' e h i = look-InOrder s.loop s s' e h i
  sender-InOrder panics stopping s s' e h i = panic-InOrder s.loop s s' e h i
  sender-InOrder x p s s' e h i = absurd (cc h)

  put_message-InOrder :
      (kind : Kind) (b : Bool) (m : Message) (s s' : Forwarding)
      → put_message kind b m s ≡ some s'
      → InOrder s
      → InOrder s'
  unfolding put_message InOrder
  put_message-InOrder kind true m s s' h i =
      subst InOrder (if_some (ltb (length s.buffer) capacity) _ s' h) (put-InOrder s m i)
  put_message-InOrder queue_loop false m s s' h i = subst InOrder (some_inj h) i
  put_message-InOrder stream_handler false m s s' h i = subst InOrder (some_inj h) i

  has_message-InOrder :
      (kind : Kind) (m : Message) (s s' : Forwarding)
      → has_message kind m s ≡ some s'
      → InOrder s
      → InOrder s'
  unfolding has_message InOrder
  has_message-InOrder queue_loop m s s' h i = subst InOrder (some_inj h) i
  has_message-InOrder stream_handler m s s' h i =
      subst InOrder (some_inj (unless_some (is_cancelled s.loop) _ s' h)) i

  source-InOrder :
      (kind : Kind) (x : SourceMove) (p : Source) (s s' : Forwarding)
      → source_step kind x p s ≡ some s'
      → InOrder s
      → InOrder s'
  unfolding source_step InOrder
  source-InOrder kind (has m) idle s s' h i = has_message-InOrder kind m s s' h i
  source-InOrder kind puts (putting m) s s' h i =
      put_message-InOrder kind (messages_open s.loop) m s s' h i
  source-InOrder kind x p s s' h i = absurd (cc h)

  step-InOrder :
      (kind : Kind) (m : Move) (s s' : Forwarding)
      → step kind a m s ≡ some s'
      → InOrder s
      → InOrder s'
  unfolding step
  step-InOrder kind (loops x) s s' h i = loop-InOrder x s.loop s s' (unless_some s.crashed _ s' h) i
  step-InOrder kind (forwards x) s s' h i =
      sender-InOrder x s.sender s s' refl (unless_some s.crashed _ s' h) i
  step-InOrder kind (provides x) s s' h i =
      source-InOrder kind x s.source s s' (unless_some s.crashed _ s' h) i

  runs-InOrder :
      (kind : Kind) (moves : List Move) (s s' : Forwarding)
      → run kind a moves s ≡ some s'
      → InOrder s
      → InOrder s'
  unfolding run
  runs-InOrder kind [] s s' h i = subst InOrder (some_inj h) i
  runs-InOrder kind (m ∷ moves) s s' h i =
      go (λ t. runs-InOrder kind moves t s') (step kind a m s) refl
    where
      go :
          ((t : Forwarding) → run kind a moves t ≡ some s' → InOrder t → InOrder s')
          → (o : Option Forwarding) → step kind a m s ≡ o
          → InOrder s'
      go later none e = absurd (ground (arith, e, h))
      go later (some t) e = later t (ground (arith, e, h)) (step-InOrder kind m s t e i)

-- After any steps of a subscription, the messages that the provider has put on the channel, each with the
-- source's address if it has none, are in order those that Send has been called with, then the one
-- that is being sent if there is one, then those that are still on the channel.
pub run-InOrder :
    (kind : Kind) (a : Option Address) (moves : List Move) (s : Forwarding)
    → run kind a moves new_forwarding ≡ some s
    → map (addressed a) s.put ≡ s.sent ++ map (addressed a) (in_hand s.sender ++ s.buffer)
unfolding InOrder new_forwarding
run-InOrder kind a moves s h = runs-InOrder a kind moves new_forwarding s h refl
