-- ===== src/Amqp/Declare/Bindings.antt =====
-- What declareBinding of internal/provider/connectors/amqp091/amqp091.go says to the broker.
use arke.Common.{
  String, ◌≡◌, refl, Bool, true, false, ◌&&◌, not, Option, Option-cases, none, some, ap, sym, ◌∙◌,
  map, ◌++◌, List, [], ◌∷◌, is_some, ok, Bool-cases, inl, inr, arith, if◌then◌else◌,
}
use arke.Amqp.Declare.Filters.{is_cons, argument, lookup-match_headers}
use arke.ConcurrentMap.{lookup, add, get, contains}
use arke.Api.{Source, Filter, Address}
use arke.Amqp.Wire.{Command, Log, Broker, Binding}
use arke.Amqp.Client.{Client}
use arke.Amqp.Declare.Bind.{
  address_name, binding_subjects, bindings_of, say_all, cleanup, cleanup_bindings, binding_key,
  declare_binding, Matches, match_headers, all_match_headers, match_headers_list, fake_subject,
  is_filter, subject_bindings,
}

-- The log after saying the commands in turn.
abbrev pub said : List Command → Log → Log
said [] log = log
said (c ∷ cs) log = said cs (c ∷ log)

-- The deletions of the bindings whose routing key is not among the subjects.
unfoldable pub deletions : Source → List String → List Binding → List Command
deletions s subjects [] = []
deletions s subjects (k ∷ ks) =
    if contains k.routing_key subjects
    then deletions s subjects ks
    else Command.delete_binding s.name (address_name s) k.properties_key ∷ deletions s subjects ks

-- The arguments of a source's bindings: those of each filter on an address for filters, and otherwise, or
-- without a filter, one binding without arguments.
abbrev pub all_arguments : List Filter → List Matches
all_arguments [] = [] ∷ []
all_arguments (f ∷ fs) = map match_headers (f ∷ fs)

abbrev pub arguments : Source → List Matches
arguments s = elim s.address [
  | none ↦ [] ∷ []
  | some a ↦ if is_filter a.kind then all_arguments s.filters else [] ∷ []
]

-- The subjects of the address; with filters and no subject, the empty one.
abbrev pub or_empty : Bool → List String → List String
or_empty filtered [] = if filtered then "" ∷ [] else []
or_empty filtered (x ∷ xs) = x ∷ xs

abbrev pub is_filtered : Source → Bool
is_filtered s = elim s.address [ none ↦ false | some a ↦ is_filter a.kind && is_cons s.filters ]

abbrev pub routing_keys : Source → List String
routing_keys s = or_empty (is_filtered s) (elim s.address [ none ↦ [] | some a ↦ a.subjects ])

-- A binding of each subject with each filter's arguments.
abbrev pub each_with : Source → List String → List Matches → List Command
each_with s [] ms = []
each_with s (x ∷ xs) ms =
    map (λ t. Command.queue_bind s.name x (address_name s) t) ms ++ each_with s xs ms

all_match_headers-map : (fs : List Filter) → all_match_headers fs ≡ map match_headers fs
unfolding all_match_headers
all_match_headers-map [] = refl
all_match_headers-map (f ∷ fs) = ap (λ ms. match_headers f ∷ ms) (all_match_headers-map fs)

fake_subject-or_empty :
    (filters : Bool) (fs : List Filter) (xs : List String)
    → fake_subject xs (if filters then all_match_headers fs else [])
      ≡ or_empty (filters && is_cons fs) xs
unfolding fake_subject all_match_headers
fake_subject-or_empty true [] [] = refl
fake_subject-or_empty true (f ∷ fs) [] = refl
fake_subject-or_empty false fs [] = refl
fake_subject-or_empty true [] (x ∷ xs) = refl
fake_subject-or_empty true (f ∷ fs) (x ∷ xs) = refl
fake_subject-or_empty false fs (x ∷ xs) = refl

binding_subjects-routing_keys : (s : Source) → binding_subjects s ≡ routing_keys s
unfolding binding_subjects fake_subject match_headers_list
binding_subjects-routing_keys s = elim (Option-cases s.address) [
  | inl no_address ↦ rw no_address refl
  | inr (a, given) ↦ rw given (fake_subject-or_empty (is_filter a.kind) s.filters a.subjects)
]

bindings_of_subject :
    (s : Source) (x : String) (filters : Bool) (fs : List Filter)
    → subject_bindings s x (if filters then all_match_headers fs else [])
      ≡ map
          (λ t. Command.queue_bind s.name x (address_name s) t)
          (if filters then all_arguments fs else [] ∷ [])
unfolding subject_bindings all_match_headers
bindings_of_subject s x true [] = refl
bindings_of_subject s x true (f ∷ fs) =
    ap (λ ms. map (λ t. Command.queue_bind s.name x (address_name s) t) (match_headers f ∷ ms))
      (all_match_headers-map fs)
bindings_of_subject s x false fs = refl

subject_bindings-arguments :
    (s : Source) (x : String)
    → subject_bindings s x (match_headers_list s)
      ≡ map (λ t. Command.queue_bind s.name x (address_name s) t) (arguments s)
unfolding subject_bindings match_headers_list
subject_bindings-arguments s x = elim (Option-cases s.address) [
  | inl no_address ↦ rw no_address refl
  | inr (a, given) ↦
      ap (subject_bindings s x) (ap list_of given)
      ∙ bindings_of_subject s x (is_filter a.kind) s.filters
      ∙ ap (map (λ t. Command.queue_bind s.name x (address_name s) t)) (sym (ap arguments_at given))
]
  where
    list_of : Option Address → List Matches
    list_of o = elim o [
      | none ↦ []
      | some a ↦ if is_filter a.kind then all_match_headers s.filters else []
    ]

    arguments_at : Option Address → List Matches
    arguments_at o = elim o [
      | none ↦ [] ∷ []
      | some a ↦ if is_filter a.kind then all_arguments s.filters else [] ∷ []
    ]

bindings_of-each_with :
    (s : Source) (xs : List String) → bindings_of s xs ≡ each_with s xs (arguments s)
unfolding bindings_of
bindings_of-each_with s [] = refl
bindings_of-each_with s (x ∷ xs) =
    ap (λ cs. cs ++ bindings_of s xs) (subject_bindings-arguments s x)
    ∙ ap (λ cs. map (λ t. Command.queue_bind s.name x (address_name s) t) (arguments s) ++ cs)
        (bindings_of-each_with s xs)

module _ (b : Broker) where
  pub say_all-said :
      (cs : List Command) (c : Client) → say_all b cs c ≡ (ok tt, record c { log = said cs c.log })
  unfolding say_all
  say_all-said [] c = refl
  say_all-said (x ∷ cs) c = say_all-said cs (record c { log = x ∷ c.log })

  pub cleanup-said :
      (s : Source) (subjects : List String) (ks : List Binding) (c : Client)
      → (cleanup b s subjects ks c).1 ≡ record c { log = said (deletions s subjects ks) c.log }
  unfolding cleanup deletions
  cleanup-said s subjects [] c = refl
  cleanup-said s subjects (k ∷ ks) c =
      let drop = Command.delete_binding s.name (address_name s) k.properties_key in
      elim (Bool-cases (contains k.routing_key subjects)) [
        | inl expected ↦ rw expected (cleanup-said s subjects ks c)
        | inr unexpected ↦
            rw unexpected (cleanup-said s subjects ks (record c { log = drop ∷ c.log }))
      ]

  declares :
      (s : Source) (force : Bool) (c : Client)
      → (is_some (get c.known_bindings (binding_key b s)) && not force) ≡ false
      → b.answer c.log Command.standby_channel ≡ none
      → let subjects = binding_subjects s in
        let bound = said (bindings_of s subjects) (Command.standby_channel ∷ c.log) in
        declare_binding b s force c ≡ (
          ok tt,
          record c {
            known_bindings = add c.known_bindings (binding_key b s) true;
            log = said (deletions s subjects (b.bindings bound (address_name s) s.name)) bound;
          },
        )
  unfolding declare_binding cleanup_bindings
  declares s force c new channel =
      let subjects = binding_subjects s in
      let open_c = record c { log = Command.standby_channel ∷ c.log } in
      let bound = said (bindings_of s subjects) open_c.log in
      let cleaned =
        cleanup-said s subjects (b.bindings bound (address_name s) s.name)
          (record c { log = bound }) in
      ground (arith, say_all-said (bindings_of s subjects) open_c, cleaned)

  -- A forced declaration, or one of a binding that is not known, fails only for want of a channel.
  -- With a channel it says to the broker one binding for each routing key and each filter's arguments,
  -- or for each routing key without arguments where the address is none for filters or has no filter;
  -- the routing keys are the subjects of the address, or the empty one if there are filters but no
  -- subject. It then deletes each binding listed by the broker whose routing key is not one of these,
  -- and no other, whatever the broker answers; the binding is known from then on. A filter's arguments are
  -- its matches, of those with the same name the last, and, unless there is none, "x-match", which is
  -- "any" or "all" as the filter asks.
  pub declare_binding_lem :
      (s : Source) (force : Bool) (c : Client)
      → (is_some (get c.known_bindings (binding_key b s)) && not force) ≡ false
      → b.answer c.log Command.standby_channel ≡ none
      → let keys = routing_keys s in
        let bound = said (each_with s keys (arguments s)) (Command.standby_channel ∷ c.log) in
        (declare_binding b s force c ≡ (
          ok tt,
          record c {
            known_bindings = add c.known_bindings (binding_key b s) true;
            log = said (deletions s keys (b.bindings bound (address_name s) s.name)) bound;
          },
        ))
        × ((f : Filter) (k : String) → lookup k (match_headers f) ≡ argument f k)
  declare_binding_lem s force c new channel =
      let open_log = Command.standby_channel ∷ c.log in
      let told : List String → List Command → Log = λ xs cs.
        said (deletions s xs (b.bindings (said cs open_log) (address_name s) s.name))
          (said cs open_log) in
      let known : Log → Client = λ log. record c {
        known_bindings = add c.known_bindings (binding_key b s) true;
        log = log;
      } in
      (
        declares s force c new channel
            ∙ ap (λ xs. (ok tt, known (told xs (bindings_of s xs))))
                (binding_subjects-routing_keys s)
            ∙ ap (λ cs. (ok tt, known (told (routing_keys s) cs)))
                (bindings_of-each_with s (routing_keys s)),
        lookup-match_headers,
      )
