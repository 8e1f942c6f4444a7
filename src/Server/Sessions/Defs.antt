-- ===== src/Server/Sessions/Defs.antt =====
-- brokerConnect, brokerDisconnect, findProvider and clientExists of internal/server/server.go. The
-- state is the map from addresses to identifiers, `connectionMap`, and the provider.
-- `missing name` is the error of `provider.GetProvider`, or `none` where it finds the provider
-- (arke.Registry models it). All connections go to one provider.
use arke.Common.{
  ℕ, zero, suc, String, Bool, true, false, Option, none, some, is_some, str_eq, Fallible, ok, err,
  if◌then◌else◌,
}
use arke.Common.Int.{ℤ, pos_part}
use arke.ConcurrentMap.{ConcurrentMap, add, delete, get}
use arke.Api.{Error, fatal_text, message_of, ConnectionConfiguration, ConnectResponse}
use arke.Identity.{Context, get_client_addr, set_client_identifier, get_client_identifier}
use arke.Server.Backend.{Backend}

pub record Server (P : Type 0) : Type 0 where
  pub identifiers : ConcurrentMap String
  pub connections : ConcurrentMap ConnectionConfiguration
  pub provider : P

-- `errMsg == nil || errMsg.GetMessage() == ""`
abbrev pub no_error : Option Error → Bool
no_error none = true
no_error (some e) = str_eq e.message ""

-- The Go error of a handler.
abbrev pub GoError : Type 0
GoError = Option String

module _ (b : Backend) where
  open b use {P, connect, disconnect}

  -- The rounds that are left, and the error of the round before.
  unfoldable pub connect_rounds :
      ℕ → String → ConnectionConfiguration → Bool → Option Error → P → Option Error × P
  connect_rounds zero id cf skip last p = (last, p)
  connect_rounds (suc n) id cf skip last p =
      let (e, p') = connect id cf skip p in
      let rest = connect_rounds n id cf skip e p' in if no_error e then (e, p') else rest

  -- From `connectTry` on, for a client whose identifier has been found.
  unfoldable pub connect_client :
      ℤ → String → ConnectionConfiguration → Bool → Server P → ConnectResponse × GoError × Server P
  unfolding connect_rounds
  connect_client max_retries id cf skip s =
      if is_some (get s.connections id)
      then (record { success = true; error = none }, none, s)
      else (let (e, p) = connect_rounds (pos_part max_retries) id cf skip none s.provider in
          if no_error e
          then (
            record { success = true; error = e },
            none,
            record s { connections = add s.connections id cf; provider = p },
          )
          else (
            record { success = false; error = e },
            some (message_of e),
            record s { provider = p },
          ))

  unfoldable pub broker_disconnect : Context → Server P → Server P
  broker_disconnect ctx s = elim (get_client_identifier ctx s.identifiers) [
    | err _ ↦ s
    | ok id ↦
        if is_some (get s.connections id)
        then record s { provider = disconnect id s.provider; connections = delete s.connections id }
        else s
  ]

-- The identifier that the client has, or a new one made of its name or its address.
unfoldable pub identify :
    {P : Type 0}
    → (String → String)
    → Context
    → String
    → ConnectionConfiguration
    → Server P
    → Fallible String × Server P
identify hash8 ctx addr cf s = elim (get_client_identifier ctx s.identifiers) [
  | ok id ↦ (ok id, s)
  | err _ ↦
      let name = (if str_eq cf.client_name "" then addr else cf.client_name) in
      let (r, m) = set_client_identifier hash8 ctx name s.identifiers in
      (r, record s { identifiers = m })
]

module _ (b : Backend) (missing : String → Option String) (hash8 : String → String) where
  open b use {P}

  -- `max_retries` is the configuration value MAX_RECONNECT_RETRIES.
  unfoldable pub broker_connect :
      ℤ → Context → ConnectionConfiguration → Bool → Server P → ConnectResponse × GoError × Server P
  unfolding identify
  broker_connect max_retries ctx cf skip s = elim (missing cf.provider) [
    | some m ↦ (record { success = false; error = some (fatal_text m) }, some m, s)
    | none ↦ elim (get_client_addr ctx) [
      | err m ↦ (record { success = false; error = none }, some m, s)
      | ok addr ↦
          let (r, s') = identify hash8 ctx addr cf s in
          elim r [
            | err m ↦ (record { success = false; error = none }, some m, s')
            | ok id ↦ connect_client b max_retries id cf skip s'
          ]
    ]
  ]

-- The identifier under which the provider knows the client, or the error of `findProvider`. An
-- identifier that has a configuration finds the provider.
unfoldable pub find_provider : {P : Type 0} → Context → Server P → Option Error × String
find_provider ctx s = elim (get_client_identifier ctx s.identifiers) [
  | err m ↦ (some (fatal_text m), "")
  | ok id ↦
      if is_some (get s.connections id)
      then (none, id)
      else (some (fatal_text "Failed to find connection information."), "")
]

unfoldable pub client_exists : {P : Type 0} → Context → Server P → Bool
client_exists ctx s = elim (get_client_identifier ctx s.identifiers) [
  | err _ ↦ false
  | ok id ↦ is_some (get s.connections id)
]
