-- ===== src/Amqp/Declare/Exchange.antt =====
-- declareExchange of internal/provider/connectors/amqp091/amqp091.go.
use arke.Common.{String, Bool, true, ◌&&◌, List, [], ◌∷◌, is_some, ok, err, if◌then◌else◌}
use arke.Common.Text.{contains_text}
use arke.ConcurrentMap.{add, get}
use arke.Api.{AddressNode}
use arke.Amqp.Wire.{Command, Broker}
use arke.Amqp.Client.{Client, Done, ◌>>=◌, ◌>>◌, pure, modify, of_fallible, ignoring, say}
use arke.Amqp.Names.{address_type_to_amqp_type}

-- `ignoreDeclareError` of an error's text.
unfoldable pub ignore_declare_error : String → Bool
ignore_declare_error e = contains_text e "PRECONDITION_FAILED" && contains_text e "inequivalent arg"

abbrev pub know_exchange : String → Client → Client
know_exchange name c = record c { known_exchanges = add c.known_exchanges name true }

module _ (b : Broker) where
  -- An error that a declaration may ignore counts as success.
  tolerate : Done → Done
  tolerate m c =
      let (r, c') = m c in
      elim r [ ok _ ↦ (ok tt, c') | err e ↦ (if ignore_declare_error e then ok tt else err e, c') ]

  unfoldable pub exchange_unless_known : AddressNode → Done
  unfolding tolerate
  exchange_unless_known a c =
      if is_some (get c.known_exchanges a.name)
      then (ok tt, c)
      else (do
        kind ← of_fallible (address_type_to_amqp_type a.kind)
        tolerate (say b (Command.exchange_declare a.name kind a.auto_delete))
        modify (know_exchange a.name))
          c

  -- Bind each subject from the parent exchange; the first error ends it.
  unfoldable pub bind_subjects : String → String → List String → Done
  bind_subjects name parent [] = pure tt
  bind_subjects name parent (s ∷ ss) = do
    say b (Command.exchange_bind name s parent)
    bind_subjects name parent ss

  -- The parent exchange is declared if it is not known, and known from then on, whatever came of it.
  unfoldable pub unless_known : AddressNode → Done → Done
  unless_known p m c =
      if is_some (get c.known_exchanges p.name)
      then (ok tt, c)
      else (do ignoring m; modify (know_exchange p.name)) c

  -- The list holds the parent address, the parent's parent address, and so on.
  unfoldable pub declare_exchange : AddressNode → List AddressNode → Done
  unfolding exchange_unless_known unless_known
  declare_exchange a [] c =
      if contains_text a.name "amq."
      then (ok tt, c)
      else (do say b Command.standby_channel; exchange_unless_known a) c
  declare_exchange a (p ∷ ps) c =
      let parents = declare_exchange p ps in
      if contains_text a.name "amq."
      then (ok tt, c)
      else (do
        say b Command.standby_channel
        exchange_unless_known a
        unless_known p parents
        bind_subjects a.name p.name a.subjects)
          c
