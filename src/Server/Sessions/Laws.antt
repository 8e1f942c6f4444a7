-- ===== src/Server/Sessions/Laws.antt =====
-- What a client may rely on after connecting to and disconnecting from internal/server/server.go.
use arke.Common.{
  String, ◌≡◌, refl, sym, ◌∙◌, ◌≢◌, Bool, true, false, Option, none, is_some, str_eq, eq_iff,
  Fallible, ok, err, arith, if◌then◌else◌,
}
use arke.Common.Int.{ℤ}
use arke.ConcurrentMap.{get, get-add_self, get-delete, get-delete_self}
use arke.Api.{ConnectionConfiguration}
use arke.Identity.{
  Context, get_client_addr, get_client_identifier, get_client_identifier-set, identifier_of,
}
use arke.Server.Backend.{Backend}
use arke.Server.Sessions.Defs.{
  Server, connect_client, identify, broker_connect, broker_disconnect, find_provider, client_exists,
}

-- The identifier that `identify` returns is the one that later lookups of the context find, and the
-- connections and the provider are left alone.
pub identify-known :
    {P : Type 0} (hash8 : String → String) (ctx : Context) (addr : String)
    (cf : ConnectionConfiguration) (s : Server P)
    → get_client_addr ctx ≡ ok addr
    → let (r, s') = identify hash8 ctx addr cf s in
      (id : String) × (r ≡ ok id)
      × (get_client_identifier ctx s'.identifiers ≡ ok id)
      × (s'.provider ≡ s.provider)
      × (s'.connections ≡ s.connections)
unfolding identify
identify-known {P} hash8 ctx addr cf s e = go (get_client_identifier ctx s.identifiers) refl
  where
    name : String
    name = if str_eq cf.client_name "" then addr else cf.client_name

    go :
        (f : Fallible String)
        → get_client_identifier ctx s.identifiers ≡ f
        → let (r, s') = identify hash8 ctx addr cf s in
          (id : String) × (r ≡ ok id)
          × (get_client_identifier ctx s'.identifiers ≡ ok id)
          × (s'.provider ≡ s.provider)
          × (s'.connections ≡ s.connections)
    go (ok id) q = (id, ground arith, ground arith, ground arith, ground arith)
    go (err m) q =
        let set = get_client_identifier-set hash8 ctx addr name s.identifiers e in
        (identifier_of hash8 name addr, ground arith, ground arith, ground arith, ground arith)

module _ (b : Backend) where
  open b use {P, connect, disconnect}

  connect_client-registers :
      (n : ℤ) (id : String) (cf : ConnectionConfiguration) (skip : Bool) (s : Server P)
      → let (resp, e, s') = connect_client b n id cf skip s in
        (resp.success ≡ is_some (get s'.connections id)) × (s'.identifiers ≡ s.identifiers)
  unfolding connect_client
  connect_client-registers n id cf skip s = ground (arith, get-add_self s.connections id cf)

  connect_client-again :
      (n : ℤ) (id : String) (cf : ConnectionConfiguration) (skip : Bool) (s : Server P)
      → is_some (get s.connections id) ≡ true
      → connect_client b n id cf skip s ≡ (record { success = true; error = none }, none, s)
  unfolding connect_client
  connect_client-again n id cf skip s h = rw h

  -- Disconnecting makes the provider disconnect the client exactly if the client was connected, and
  -- leaves the client not connected and its lookups without a provider. Clients with other identifiers
  -- stay as they were.
  pub broker_disconnect_lem :
      (ctx : Context) (id : String) (s : Server P)
      → get_client_identifier ctx s.identifiers ≡ ok id
      → let s' = broker_disconnect b ctx s in
        (s'.provider ≡ (if client_exists ctx s then disconnect id s.provider else s.provider))
        × (client_exists ctx s' ≡ false)
        × ((find_provider ctx s').0 ≢ none)
        × ((other : Context) (id' : String)
            → get_client_identifier other s.identifiers ≡ ok id'
            → id ≢ id'
            → (client_exists other s' ≡ client_exists other s)
              × (find_provider other s' ≡ find_provider other s))
  unfolding broker_disconnect client_exists find_provider
  broker_disconnect_lem ctx id s e = (
    ground arith,
    ground (arith, get-delete_self s.connections id),
    ground (arith, get-delete_self s.connections id),
    λ other id' e' ne. ground (arith, eq_iff id id', get-delete s.connections id id'),
  )

module _ (b : Backend) (missing : String → Option String) (hash8 : String → String) where
  open b use {P, connect, disconnect}

  -- With a known provider type, connecting reports success exactly if the client is connected
  -- afterwards.
  pub broker_connect_success :
      (n : ℤ) (ctx : Context) (cf : ConnectionConfiguration) (skip : Bool) (s : Server P)
      → missing cf.provider ≡ none
      → let (resp, e, s') = broker_connect b missing hash8 n ctx cf skip s in
        resp.success ≡ client_exists ctx s'
  unfolding broker_connect client_exists
  broker_connect_success n ctx cf skip s known = go (get_client_addr ctx) refl
    where
      go :
          (f : Fallible String)
          → get_client_addr ctx ≡ f
          → let (resp, e, s') = broker_connect b missing hash8 n ctx cf skip s in
            resp.success ≡ client_exists ctx s'
      go (err m) q = unfold get_client_identifier in ground arith
      go (ok addr) q =
          let (id, named, found, _, _) = identify-known hash8 ctx addr cf s q in
          let s' = (identify hash8 ctx addr cf s).1 in
          ground (arith, connect_client-registers b n id cf skip s')

  -- A client that has connected may connect again, with any configuration of a known provider type:
  -- the answer is success, and neither the maps nor the provider change.
  broker_connect_again :
      (n n' : ℤ) (ctx : Context) (cf cf' : ConnectionConfiguration) (skip skip' : Bool)
      (s : Server P)
      → missing cf.provider ≡ none
      → missing cf'.provider ≡ none
      → let (resp, e, s') = broker_connect b missing hash8 n ctx cf skip s in
        resp.success ≡ true
        → broker_connect b missing hash8 n' ctx cf' skip' s'
          ≡ (record { success = true; error = none }, none, s')
  unfolding broker_connect
  broker_connect_again n n' ctx cf cf' skip skip' s known known' ok_connect =
      connected (broker_connect b missing hash8 n ctx cf skip s).2
        (sym (broker_connect_success n ctx cf skip s known) ∙ ok_connect)
    where
      connected :
          (t : Server P)
          → client_exists ctx t ≡ true
          → broker_connect b missing hash8 n' ctx cf' skip' t
            ≡ (record { success = true; error = none }, none, t)
      connected t h =
          unfold client_exists get_client_identifier identify connect_client in ground arith
