-- ===== src/Server/Requests/Laws.antt =====
-- When a request of internal/server/server.go reaches the provider, and which clients are trimmed.
use arke.Common.{
  String, ◌≡◌, refl, Bool, false, ◌&&◌, not, Option, none, some, List, [], ◌∷◌, map, is_some, arith,
  str_eq, eq_iff, Option-cases, ◌⊎◌, inl, inr, if◌then◌else◌,
}
use arke.ConcurrentMap.{ConcurrentMap, get, get_list, get-delete, contains, contains-get_list}
use arke.Api.{Error, Source, ConnectionConfiguration}
use arke.Identity.{Context}
use arke.Server.Backend.{Backend}
use arke.Server.Sessions.{Server, find_provider}
use arke.Server.Requests.Defs.{
  StatsAnswer, statistics, no_provider, serve_source_stats, serve_source_stats_group, stats_of_each,
  trim_found, trim_each, trim_connection_list,
}

module _ (b : Backend) where
  open b use {P, Stats, publish_one, source_stats, client_exists}

  -- SourceStats for each source in turn.
  abbrev pub each_source_stats :
      Context → List Source → Server P → List (StatsAnswer Stats) × Server P
  each_source_stats ctx [] s = ([], s)
  each_source_stats ctx (source ∷ sources) s =
      let (a, _, s') = serve_source_stats b ctx source s in
      let (rest, s'') = each_source_stats ctx sources s' in (a ∷ rest, s'')

  each-stats :
      (ctx : Context) (sources : List Source) (s : Server P)
      → (find_provider ctx s).0 ≡ none
      → let (list, p) = stats_of_each b (find_provider ctx s).1 sources s.provider in
        each_source_stats ctx sources s ≡ (map (λ t. statistics t) list, record s { provider = p })
  unfolding stats_of_each serve_source_stats find_provider
  each-stats ctx [] s h = refl
  each-stats ctx (source ∷ sources) s h =
      let p = (source_stats (find_provider ctx s).1 source s.provider).1 in
      let rest = each-stats ctx sources (record s { provider = p }) h in ground (arith, rest)

  -- For a connected client, SourceStatsGroup answers with the statistics that SourceStats gives for each
  -- source in turn, in that order and without a Go error, and leaves the same state; for another client
  -- it asks the provider for nothing and answers with the error of finding the provider.
  pub serve_source_stats_group_lem :
      (ctx : Context) (sources : List Source) (s : Server P)
      → let (answer, e, s') = serve_source_stats_group b ctx sources s in
        ((list : List Stats) × (answer ≡ statistics list)
          × (e ≡ none)
          × (each_source_stats ctx sources s ≡ (map (λ t. statistics t) list, s')))
        ⊎ ((e' : Error) × ((find_provider ctx s).0 ≡ some e')
            × (answer ≡ no_provider e')
            × (e ≡ some e'.message)
            × (s' ≡ s))
  unfolding serve_source_stats_group
  serve_source_stats_group_lem ctx sources s = elim (Option-cases (find_provider ctx s).0) [
    | inl h ↦
        let each = each-stats ctx sources s h in
        inl (
          (stats_of_each b (find_provider ctx s).1 sources s.provider).0,
          ground arith,
          ground arith,
          ground (arith, each),
        )
    | inr (e', h) ↦ inr (e', h, ground arith, ground arith, ground arith)
  ]

  module _ (missing : String → Option String) where
    -- The provider of the configuration's type can be had, and says that the client does not exist.
    abbrev pub dead : P → String → Option ConnectionConfiguration → Bool
    dead p id none = false
    dead p id (some cf) = not (is_some (missing cf.provider)) && not (client_exists id p)

    get-trim_found :
        (id : String) (p : P) (m : ConcurrentMap ConnectionConfiguration) (j : String)
        → get (trim_found b missing id (get m id) p m) j
          ≡ (if str_eq id j && dead p j (get m j) then none else get m j)
    unfolding trim_found
    get-trim_found id p m j = ground (arith, get-delete m id j, eq_iff id j)

    get-trim_each :
        (ids : List String) (p : P) (m : ConcurrentMap ConnectionConfiguration) (j : String)
        → get (trim_each b missing ids p m) j
          ≡ (if contains j ids && dead p j (get m j) then none else get m j)
    unfolding trim_each
    get-trim_each [] p m j = refl
    get-trim_each (id ∷ ids) p m j =
        let rest = get-trim_each ids p (trim_found b missing id (get m id) p m) j in
        ground (arith, rest, get-trim_found id p m j)

    -- Trimming removes exactly the clients that a provider which can be had says do not exist, and
    -- keeps the configuration of every other client.
    get-trim_connection_list :
        (s : Server P) (j : String)
        → get (trim_connection_list b missing s).connections j
          ≡ (if dead s.provider j (get s.connections j) then none else get s.connections j)
    unfolding trim_connection_list
    get-trim_connection_list s j = ground (
      arith,
      get-trim_each (get_list s.connections) s.provider s.connections j,
      contains-get_list s.connections j,
    )
