-- ===== src/Amqp/Channels/Defs.antt =====
-- The connection and the channel of internal/provider/connectors/amqp091/amqp091shim.go. The client
-- library is not part of the program: what it answers is an unknown function of all calls before.
use arke.Common.{
  ℕ, String, Bool, true, false, Option, none, some, List, ◌∷◌, length, Fallible, ok, err,
  if◌then◌else◌,
}
use arke.Common.Int.{ℤ, pos, ltb_ℤ}
use arke.Amqp.Headers.{Table}
use arke.Amqp.Wire.{Properties}

-- What a channel is used for. A channel that does not confirm publishes with `publish`.
pub data Operation : Type 0 where
  exchange_declare : String → String → Bool → Operation
  exchange_bind : String → String → String → Operation
  queue_declare : String → Bool → Bool → Table → Operation
  queue_bind : String → String → String → Table → Operation
  consume : String → Bool → Bool → Operation
  publish publish_deferred : String → String → Properties → Table → List ℕ → Operation

-- The calls of the library; a number stands for a channel of the library. `asks` is IsClosed.
pub data Call : Type 0 where
  opens : Call
  asks confirms : ℕ → Call
  qos : ℕ → ℤ → Call
  operates : ℕ → Operation → Call

-- The newest call stands first.
abbrev pub Log : Type 0
Log = List Call

-- `answer` is none for success and else the text of the error. `confirmation` is what a deferred
-- publication comes to: none without a confirmation to wait for, and else what the wait returns.
pub record Library : Type 0 where
  pub answer : Log → Call → Option String
  pub is_closed : Log → ℕ → Bool
  pub confirmation : Log → Option Bool

-- amqp091Channel: the channel of the library that it holds now, and what it restores on a new one.
pub record Channel : Type 0 where
  pub channel : ℕ
  pub prefetch : ℤ
  pub confirm : Bool

abbrev pub Result : Type 0
Result = Fallible (Unit {0}) × Channel × Log

abbrev pub answered : Option String → Fallible (Unit {0})
answered none = ok tt
answered (some e) = err e

module _ (l : Library) where
  -- `answered` with the channel, for the last call of an operation.
  abbrev say : Call → Channel → Log → Result
  say c ch log = (answered (l.answer log c), ch, c ∷ log)

  -- The channel that the library opens after a log has the log's length for its number. One that
  -- cannot be set to confirm is dropped.
  unfoldable pub new_channel : Bool → Log → Fallible Channel × Log
  new_channel confirm log =
      let ch : Channel = record { channel = length log; prefetch = pos 0; confirm = confirm } in
      elim (l.answer log opens) [
        | some e ↦ (err e, opens ∷ log)
        | none ↦
            if confirm
            then (elim (l.answer (opens ∷ log) (confirms (length log))) [
              | some e ↦ (err e, confirms (length log) ∷ opens ∷ log)
              | none ↦ (ok ch, confirms (length log) ∷ opens ∷ log)
            ])
            else (ok ch, opens ∷ log)
      ]

  unfoldable pub set_qos : Channel → Log → Result
  set_qos ch log =
      if ltb_ℤ (pos 0) ch.prefetch
      then say (qos ch.channel ch.prefetch) ch log
      else (ok tt, ch, log)

  unfoldable pub adopt : Channel → Fallible Channel × Log → Result
  adopt ch (err e, log) = (err e, ch, log)
  adopt ch (ok new, log) = set_qos (record ch { channel = new.channel }) log

  unfoldable pub ensure_channel : Channel → Log → Result
  ensure_channel ch log =
      if l.is_closed log ch.channel
      then adopt ch (new_channel ch.confirm (asks ch.channel ∷ log))
      else set_qos ch (asks ch.channel ∷ log)

  unfoldable pub set_prefetch : ℤ → Channel → Log → Result
  set_prefetch n ch log = ensure_channel (record ch { prefetch = n }) log

  unfoldable pub then_operate : Operation → Result → Result
  then_operate o (err e, ch, log) = (err e, ch, log)
  then_operate o (ok _, ch, log) = say (operates ch.channel o) ch log

  -- ExchangeDeclare, ExchangeBind, QueueDeclare, QueueBind and Consume
  unfoldable pub operate : Operation → Channel → Log → Result
  operate o ch log = then_operate o (ensure_channel ch log)

  -- What Publish makes of the confirmation, where the library has taken the message.
  unfoldable pub confirmed : Result → Result
  confirmed (err e, ch, log) = (err e, ch, log)
  confirmed (ok _, ch, log) = elim (l.confirmation log) [
    | none ↦ (ok tt, ch, log)
    | some true ↦ (ok tt, ch, log)
    | some false ↦ (err "Publish confirmation failed", ch, log)
  ]

  unfoldable pub publish_on : String → String → Properties → Table → List ℕ → Channel → Log → Result
  publish_on address subject p headers body ch log =
      if ch.confirm
      then confirmed (operate (publish_deferred address subject p headers body) ch log)
      else operate (publish address subject p headers body) ch log

  -- The standby channel of a connection, made on the first use. A channel that cannot be ensured keeps
  -- what it has.
  unfoldable pub standby_channel : Option Channel → Log → Fallible Channel × Option Channel × Log
  standby_channel none log =
      let (r, log') = new_channel false log in
      elim r [ ok ch ↦ (ok ch, some ch, log') | err e ↦ (err e, none, log') ]
  standby_channel (some ch) log =
      let (r, ch', log') = ensure_channel ch log in
      elim r [ ok _ ↦ (ok ch', some ch', log') | err e ↦ (err e, some ch', log') ]
