-- ===== src/Amqp/Management/Errors.antt =====
-- When SourceStats of internal/provider/connectors/amqp091/amqp091.go reports an error, and which.
use arke.Common.{
  ℕ, ◌≤◌, ◌<◌, ◌≡◌, ◌↔◌, refl, ap, sym, subst, ◌∙◌, arith, String, Bool, true, false, ◌&&◌, Option,
  none, some, Fallible, ok, err, str_eq, is_some, if◌then◌else◌,
}
use arke.Common.Int.{ℤ}
use arke.Api.{
  SourceType, quorum_queue, temporary, stream_source, other_source, Source, ConnectionConfiguration,
}
use arke.Amqp.Declare.{address_name}
use arke.Amqp.Streams.Subscribe.{get_consumer_name}
use arke.Amqp.Management.Defs.{
  Fields, Body, Response, Http, management_request, answer_of, lookup_field, not_json,
  unmarshal_object, Metrics, unmarshal_metrics, SourceStats, no_stats, failed_stats, request_url,
}
use arke.Amqp.Management.Stats.{
  consumers, with_rates, with_error, update_current_offset, update_stream_offset,
  update_stats_for_stream, stats_of_kind, counted, decoded_stats, stats_of_answer, stats_urn,
  get_stream_or_queue_stats, is_stream_source, source_stats,
}

-- The body holds an object in which the number of consumers, if there is one, is a number.
abbrev pub Counts : Body → Type 0
Counts b =
    (f : Fields) × (n : ℤ) × (unmarshal_object b ≡ ok f)
    × (consumers (lookup_field "consumers" f) ≡ some n)

-- A response that reports success and could be read, with such a body.
abbrev pub Answered : Fallible Response → Type 0
Answered (err e) = ⊥
Answered (ok r) = (200 ≤ r.status) × (r.status < 300) × (r.body_error ≡ none) × Counts r.body

-- There are statistics, and they report no error.
abbrev pub Reported : Option SourceStats → Type 0
Reported o = (st : SourceStats) × (o ≡ some st) × (st.error ≡ none)

some_inj : {A : Type 0} {a b : A} → some a ≡ some b → a ≡ b
some_inj h = cc h

answer_body :
    (url : String) (r : Response)
    → answer_of "GET" url (ok r) ≡ (r.body, (answer_of "GET" url (ok r)).1)
unfolding answer_of
answer_body url r = (ground arith)

answer_error_iff :
    (url : String) (r : Response)
    → ((answer_of "GET" url (ok r)).1 ≡ none)
      ↔ ((200 ≤ r.status) × (r.status < 300) × (r.body_error ≡ none))
unfolding answer_of
answer_error_iff url r = (λ h. (ground (arith, h)), λ (l, u, n). (ground (arith, l, u, n)))

failed : (e : String) → Reported (some (failed_stats e)) → ⊥
failed e (st, h, g) = cc (h, g)

with_rates-error : (m : Metrics) (st : SourceStats) → (with_rates m st).error ≡ st.error
unfolding with_rates
with_rates-error m st = ground arith

chosen_iff :
    (b c : Bool) (d : Option String) (m n : String) (g : Option SourceStats)
    → Reported (
        if b then some (failed_stats m) else (elim d [
          | some e ↦ some (failed_stats e)
          | none ↦ if c then some (failed_stats n) else g
        ]))
      ↔ ((b ≡ false) × (d ≡ none) × (c ≡ false) × Reported g)
chosen_iff true c d m n g = (λ h. absurd (failed m h), λ (h, _, _, _). absurd (cc h))
chosen_iff false c (some e) m n g = (λ h. absurd (failed e h), λ (_, h, _, _). absurd (cc h))
chosen_iff false true none m n g = (λ h. absurd (failed n h), λ (_, _, h, _). absurd (cc h))
chosen_iff false false none m n g = (λ h. (refl, refl, refl, h), λ (_, _, _, h). h)

module _ (query_offset : String → String → ℤ) (stream_offset : String → Fallible ℤ) where
  -- For a stream the consumer has a name and the stream has an offset.
  abbrev pub KindReported : SourceType → Source → Type 0
  KindReported stream_source s =
      ((name : String) × (get_consumer_name s ≡ ok name))
      × ((n : ℤ) × (stream_offset s.name ≡ ok n))
  KindReported _ s = Unit

  stream_iff :
      (s : Source) (st : SourceStats)
      → st.error ≡ none
      → ((update_stats_for_stream query_offset stream_offset s st).error ≡ none)
        ↔ KindReported stream_source s
  unfolding update_stats_for_stream update_stream_offset update_current_offset
  stream_iff s st h = go (get_consumer_name s) (stream_offset s.name) refl refl
    where
      go :
          (name : Fallible String) (o : Fallible ℤ)
          → get_consumer_name s ≡ name
          → stream_offset s.name ≡ o
          → ((update_stats_for_stream query_offset stream_offset s st).error ≡ none)
            ↔ KindReported stream_source s
      go (err x) (ok o) e g =
          (λ p. absurd (ground (arith, e, g, p)), λ ((_, a), _). absurd (cc (e, a)))
      go (err x) (err y) e g =
          (λ p. absurd (ground (arith, e, g, p)), λ ((_, a), _). absurd (cc (e, a)))
      go (ok name) (err y) e g =
          (λ p. absurd (ground (arith, e, g, p)), λ (_, (_, a)). absurd (cc (g, a)))
      go (ok name) (ok o) e g = (λ _. ((name, e), (o, g)), λ _. ground (arith, e, g, h))

  kind_iff :
      (k : SourceType) (m : Metrics) (s : Source) (st : SourceStats)
      → st.error ≡ none
      → ((stats_of_kind query_offset stream_offset k m s st).error ≡ none) ↔ KindReported k s
  unfolding stats_of_kind
  kind_iff quorum_queue m s st h = (λ _. tt, λ _. h)
  kind_iff stream_source m s st h = stream_iff s st h
  kind_iff temporary m s st h = (λ _. tt, λ _. h)
  kind_iff (other_source n) m s st h = (λ _. tt, λ _. h)

  counted_iff :
      (f : Fields) (s : Source) (e : Option String) (o : Option ℤ)
      → Reported (counted query_offset stream_offset f s e o)
        ↔ ((e ≡ none) × ((n : ℤ) × (o ≡ some n)) × KindReported s.kind s)
  unfolding counted with_error
  counted_iff f s e none = (λ (st, h, g). absurd (cc h), λ (_, (n, h), _). absurd (cc h))
  counted_iff f s (some x) (some n) = (λ (st, h, g). absurd (cc (h, g)), λ (h, _, _). absurd (cc h))
  counted_iff f s none (some n) =
      let st = with_rates (unmarshal_metrics f) (record no_stats { consumer_count = n }) in
      let (to, from) =
        kind_iff s.kind (unmarshal_metrics f) s st
          (with_rates-error (unmarshal_metrics f) (record no_stats { consumer_count = n })) in
      (
        λ (st', h, g). (refl, (n, refl), to (ap (λ x. x.error) (some_inj h) ∙ g)),
        λ (_, _, k). (
          stats_of_kind query_offset stream_offset s.kind (unmarshal_metrics f) s st,
          refl,
          from k,
        ),
      )

  body_iff :
      (s : Source) (b : Body) (e : Option String)
      → Reported (stats_of_answer query_offset stream_offset s (b, e))
        ↔ ((e ≡ none) × Counts b × KindReported s.kind s)
  unfolding stats_of_answer decoded_stats
  body_iff s b e = go (unmarshal_object b) refl
    where
      go :
          (o : Fallible Fields)
          → unmarshal_object b ≡ o
          → Reported (decoded_stats query_offset stream_offset s e o)
            ↔ ((e ≡ none) × Counts b × KindReported s.kind s)
      go (err m) same = (λ h. absurd (failed m h), λ (_, (f, n, g, _), _). absurd (cc (same, g)))
      go (ok f) same =
          let (to, from) = counted_iff f s e (consumers (lookup_field "consumers" f)) in
          (
            λ h. let (a, (n, c), k) = to h in (a, (f, n, same, c), k),
            λ (a, (g, n, at, c), k). from (a, (n, (cc (at, same, c))), k),
          )

  answer_iff :
      (s : Source) (url : String) (r : Fallible Response)
      → Reported (stats_of_answer query_offset stream_offset s (answer_of "GET" url r))
        ↔ (Answered r × KindReported s.kind s)
  unfolding answer_of stats_of_answer decoded_stats unmarshal_object
  answer_iff s url (err e) = (λ h. absurd (failed not_json h), λ (h, _). absurd h)
  answer_iff s url (ok r) =
      let (to, from) = body_iff s r.body (answer_of "GET" url (ok r)).1 in
      let (good, bad) = answer_error_iff url r in
      (
        λ h.
            let (a, c, k) = to (
              subst (λ x. Reported (stats_of_answer query_offset stream_offset s x))
                (answer_body url r) h) in
            let (l, u, n) = good a in ((l, u, n, c), k),
        λ ((l, u, n, c), k).
            subst (λ x. Reported (stats_of_answer query_offset stream_offset s x))
              (sym (answer_body url r)) (from (bad (l, u, n), c, k)),
      )

  module _ (http : Http) (tls : Bool) (admin_port : ℕ) (cf : ConnectionConfiguration) where
    -- The answer to the request for a source.
    abbrev pub reply_for : Source → Fallible Response
    reply_for s = http "GET" (request_url tls admin_port cf (stats_urn cf s))

    -- SourceStats gives statistics without an error exactly if the source has an address with a name, the
    -- client has broker details and for a stream a stream connection, the management API answers the
    -- request for the source with a status from 200 to 299 and a body that can be read and holds an object
    -- whose number of consumers is a number or missing, and for a stream its consumer has a name and its
    -- offset can be asked for.
    pub source_stats_lem :
        (details connection : Option String) (s : Source)
        → Reported
            (source_stats query_offset stream_offset http tls admin_port cf details connection s)
          ↔ ((str_eq (address_name s) "" ≡ false)
              × (details ≡ none)
              × (is_stream_source s.kind && is_some connection ≡ false)
              × Answered (reply_for s)
              × KindReported s.kind s)
    unfolding source_stats get_stream_or_queue_stats management_request
    source_stats_lem details connection s =
        let (to, from) =
          chosen_iff (str_eq (address_name s) "") (is_stream_source s.kind && is_some connection)
            details "address name not defined" (elim connection [ none ↦ "" | some e ↦ e ])
            (get_stream_or_queue_stats query_offset stream_offset http tls admin_port cf s) in
        let (given, back) =
          answer_iff s (request_url tls admin_port cf (stats_urn cf s)) (reply_for s) in
        (
          λ h. let (a, b, c, r) = to h in let (x, k) = given r in (a, b, c, x, k),
          λ (a, b, c, r, k). from (a, b, c, back (r, k)),
        )

    -- When the request for the statistics of a source that is not refused beforehand fails, SourceStats
    -- reports that the body is no JSON, and not the error of the request.
    source_stats_masks :
        (connection : Option String) (s : Source) (e : String)
        → str_eq (address_name s) "" ≡ false
        → is_stream_source s.kind && is_some connection ≡ false
        → reply_for s ≡ err e
        → source_stats query_offset stream_offset http tls admin_port cf none connection s
          ≡ some (failed_stats not_json)
    unfolding source_stats get_stream_or_queue_stats management_request answer_of stats_of_answer
        decoded_stats unmarshal_object
    source_stats_masks connection s e named there h = rw (named, there, h) refl
