-- ===== src/Amqp/Declare/Queue.antt =====
-- declareQueue of internal/provider/connectors/amqp091/amqp091.go. Go ranges over the options in an
-- unspecified order; here it is the order of the list.
use Prim.Native.String.{◌++◌ as append}
use arke.Common.{
  ℕ, ◌-◌, ◌^◌, String, Bool, true, ◌&&◌, ◌||◌, not, none, some, List, [], ◌∷◌, is_some, str_eq,
  Fallible, ok, err, if◌then◌else◌,
}
use arke.Common.Int.{ℤ, pos, negsuc}
use arke.Common.Text.{atoi}
use arke.ConcurrentMap.{add, get, lookup, insert}
use arke.Api.{Source}
use arke.Amqp.Headers.{Table, HeaderValue}
use arke.Amqp.Wire.{Command, Broker}
use arke.Amqp.Client.{Done, ◌>>=◌, ◌>>◌, modify, of_fallible, ignoring, say}
use arke.Amqp.Names.{source_type_to_amqp_type}

-- The bit pattern of a 64-bit integer.
abbrev pub pattern64 : ℤ → ℕ
pattern64 (pos n) = n
pattern64 (negsuc n) = 2 ^ 64 - 1 - n

-- A number option under the queue argument `arg`.
number_arg : String → String → String → Table → Fallible Table
number_arg arg option value args = elim (atoi value) [
  | none ↦ err (append "value for " (append option " option must be a quoted integer"))
  | some n ↦ ok (insert arg (HeaderValue.int (pattern64 n)) args)
]

unfoldable pub option_arg : String → String → Table → Fallible Table
unfolding number_arg
option_arg option value args =
    if str_eq option "MessageTTL"
    then number_arg "x-message-ttl" option value args
    else if str_eq option "Expires"
    then number_arg "x-expires" option value args
    else if str_eq option "DeadLetterAddress"
    then ok (insert "x-dead-letter-exchange" (HeaderValue.text value) args)
    else if str_eq option "DeadLetterSubject"
    then ok (insert "x-dead-letter-routing-key" (HeaderValue.text value) args)
    else err (append option " is an unsupported source option")

unfoldable pub option_args : List (String × String) → Table → Fallible Table
option_args [] args = ok args
option_args ((option, value) ∷ options) args = elim (option_arg option value args) [
  | err e ↦ err e
  | ok args' ↦ option_args options args'
]

consumer_arg : Source → Table → Table
consumer_arg s args =
    if s.single_active_consumer
    then insert "x-single-active-consumer" (HeaderValue.bool true) args
    else args

-- An AutoDelete or Exclusive source without Expires expires after five minutes.
default_expires : Source → Table → Table
default_expires s args =
    if (s.auto_delete || s.exclusive) && not (is_some (lookup "x-expires" args))
    then insert "x-expires" (HeaderValue.int 300000) args
    else args

unfoldable pub queue_args : Source → Fallible Table
unfolding consumer_arg default_expires
queue_args s = elim (source_type_to_amqp_type s) [
  | err e ↦ err e
  | ok kind ↦ elim (option_args s.options (("x-queue-type", HeaderValue.text kind) ∷ [])) [
    | err e ↦ err e
    | ok args ↦ ok (default_expires s (consumer_arg s args))
  ]
]

module _ (b : Broker) where
  -- The broker's error on the declaration is only logged, and the queue is known from then on.
  unfoldable pub declare_queue : Source → Bool → Done
  declare_queue s force c =
      if is_some (get c.known_queues s.name) && not force
      then (ok tt, c)
      else (do
        say b Command.standby_channel
        args ← of_fallible (queue_args s)
        ignoring (say b (Command.queue_declare s.name args))
        modify (λ c'. record c' { known_queues = add c'.known_queues s.name true }))
          c
