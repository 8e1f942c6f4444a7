-- ===== src/Server/Requests/Defs.antt =====
-- PublishOne, SourceStats, SourceStatsGroup and TrimConnectionList of internal/server/server.go. An
-- answer stands beside the Go error.
use arke.Common.{
  String, true, false, Option, none, some, List, [], ◌∷◌, length, ◌==◌, if◌then◌else◌,
}
use arke.ConcurrentMap.{ConcurrentMap, get, delete, get_list}
use arke.Api.{
  Error, error_text, subjects_of, Message, MessageResponse, Source, ConnectionConfiguration,
}
use arke.Identity.{Context}
use arke.Server.Backend.{Backend}
use arke.Server.Sessions.{Server, GoError, find_provider}

abbrev pub one_subject : Error
one_subject = error_text "exactly one subject allowed in an Address with Publish"

-- The response and the Go error, by the error of publishing.
abbrev pub published : Option Error → MessageResponse × GoError
published none = (record { success = true; error = none }, none)
published (some e) = (record { success = false; error = some e }, some e.message)

-- The statistics of sources, or the error of finding the provider.
pub data StatsAnswer (S : Type 0) : Type 0 where
  statistics : S → StatsAnswer S
  no_provider : Error → StatsAnswer S

module _ (b : Backend) where
  open b use {P, Stats, publish_one, source_stats, client_exists}

  unfoldable pub serve_publish_one :
      Context → Message → Server P → MessageResponse × GoError × Server P
  serve_publish_one ctx m s =
      let (missing, id) = find_provider ctx s in
      let (e, p) = publish_one id m s.provider in
      elim missing [
        | some e' ↦ ((published (some e')).0, (published (some e')).1, s)
        | none ↦
            if length (subjects_of m) == 1
            then ((published e).0, (published e).1, record s { provider = p })
            else ((published (some one_subject)).0, (published (some one_subject)).1, s)
      ]

  unfoldable pub serve_source_stats :
      Context → Source → Server P → StatsAnswer Stats × GoError × Server P
  serve_source_stats ctx source s =
      let (missing, id) = find_provider ctx s in
      elim missing [
        | some e ↦ (no_provider e, some e.message, s)
        | none ↦
            let (stats, p) = source_stats id source s.provider in
            (statistics stats, none, record s { provider = p })
      ]

  unfoldable pub stats_of_each : String → List Source → P → List Stats × P
  stats_of_each id [] p = ([], p)
  stats_of_each id (source ∷ sources) p =
      let (stats, p') = source_stats id source p in
      let (rest, p'') = stats_of_each id sources p' in (stats ∷ rest, p'')

  unfoldable pub serve_source_stats_group :
      Context → List Source → Server P → StatsAnswer (List Stats) × GoError × Server P
  serve_source_stats_group ctx sources s =
      let (missing, id) = find_provider ctx s in
      elim missing [
        | some e ↦ (no_provider e, some e.message, s)
        | none ↦
            let (list, p) = stats_of_each id sources s.provider in
            (statistics list, none, record s { provider = p })
      ]

  -- `missing` is the error of `GetProvider`, as for connecting.
  module _ (missing : String → Option String) where
    unfoldable pub trim_found :
        String
        → Option ConnectionConfiguration
        → P
        → ConcurrentMap ConnectionConfiguration
        → ConcurrentMap ConnectionConfiguration
    trim_found id none p m = delete m id
    trim_found id (some cf) p m = elim (missing cf.provider) [
      | some _ ↦ m
      | none ↦ if client_exists id p then m else delete m id
    ]

    unfoldable pub trim_each :
        List String
        → P
        → ConcurrentMap ConnectionConfiguration
        → ConcurrentMap ConnectionConfiguration
    unfolding trim_found
    trim_each [] p m = m
    trim_each (id ∷ ids) p m = trim_each ids p (trim_found id (get m id) p m)

    unfoldable pub trim_connection_list : Server P → Server P
    unfolding trim_each
    trim_connection_list s = record s {
      connections = trim_each (get_list s.connections) s.provider s.connections;
    }
