-- ===== src/Amqp/Declare/Bind.antt =====
-- declareBinding and cleanupBindings of internal/provider/connectors/amqp091/amqp091.go. What the
-- management API lists is an unknown of the broker; an error of that request lists nothing.
use Prim.Native.String.{◌++◌ as append}
use arke.Common.{
  String, Bool, true, false, ◌&&◌, not, none, some, List, [], ◌∷◌, ◌++◌, map, is_some, Fallible, ok,
  err, if◌then◌else◌,
}
use arke.Common.Text.{join}
use arke.ConcurrentMap.{add, get, insert, contains}
use arke.Api.{AddressType, filter, Source, Filter}
use arke.Amqp.Wire.{Command, Broker, Binding}
use arke.Amqp.Client.{Client, Done, ◌>>◌, pure, modify, ignoring, say}

abbrev pub Matches : Type 0
Matches = List (String × String)

-- The arguments of one filter: its matches, and how many of them must hold.
unfoldable pub insert_all : Matches → Matches → Matches
insert_all [] t = t
insert_all ((k, v) ∷ l) t = insert_all l (insert k v t)

unfoldable pub with_mode : Bool → Matches → Matches
with_mode any_match [] = []
with_mode any_match (m ∷ ms) = insert "x-match" (if any_match then "any" else "all") (m ∷ ms)

unfoldable pub match_headers : Filter → Matches
unfolding insert_all with_mode
match_headers f = with_mode f.any_match (insert_all f.matches [])

unfoldable pub all_match_headers : List Filter → List Matches
all_match_headers [] = []
all_match_headers (f ∷ fs) = match_headers f ∷ all_match_headers fs

-- `source.GetAddress()` is used on its fields only; a nil address has none.
abbrev pub address_name : Source → String
address_name s = elim s.address [ none ↦ "" | some a ↦ a.name ]

abbrev pub source_subjects : Source → List String
source_subjects s = elim s.address [ none ↦ [] | some a ↦ a.subjects ]

abbrev pub is_filter : AddressType → Bool
is_filter filter = true
is_filter _ = false

unfoldable pub match_headers_list : Source → List Matches
unfolding all_match_headers
match_headers_list s = elim s.address [
  | none ↦ []
  | some a ↦ if is_filter a.kind then all_match_headers s.filters else []
]

-- With filters but no subject there is one empty subject.
unfoldable pub fake_subject : List String → List Matches → List String
fake_subject [] [] = []
fake_subject [] (m ∷ ms) = "" ∷ []
fake_subject (x ∷ xs) ms = x ∷ xs

unfoldable pub binding_subjects : Source → List String
unfolding fake_subject
binding_subjects s = fake_subject (source_subjects s) (match_headers_list s)

-- One subject's bindings: one for each filter, or one without arguments.
unfoldable pub subject_bindings : Source → String → List Matches → List Command
subject_bindings s subject [] = Command.queue_bind s.name subject (address_name s) [] ∷ []
subject_bindings s subject (m ∷ ms) =
    map (λ t. Command.queue_bind s.name subject (address_name s) t) (m ∷ ms)

unfoldable pub bindings_of : Source → List String → List Command
bindings_of s [] = []
bindings_of s (x ∷ xs) = subject_bindings s x (match_headers_list s) ++ bindings_of s xs

module _ (b : Broker) where
  -- Say each command; an error is only logged.
  unfoldable pub say_all : List Command → Done
  say_all [] = pure tt
  say_all (c ∷ cs) = do ignoring (say b c); say_all cs

  -- The properties keys of the bindings that were deleted.
  removed_key : Binding → Fallible (Unit {0}) → List String → List String
  removed_key k (ok _) removed = k.properties_key ∷ removed
  removed_key k (err _) removed = removed

  unfoldable pub cleanup : Source → List String → List Binding → Client → List String × Client
  unfolding removed_key
  cleanup s subjects [] c = ([], c)
  cleanup s subjects (k ∷ ks) c =
      let kept = cleanup s subjects ks c in
      let (r, c') = say b (Command.delete_binding s.name (address_name s) k.properties_key) c in
      let rest = cleanup s subjects ks c' in
      let dropped : List String × Client = (removed_key k r rest.0, rest.1) in
      if contains k.routing_key subjects then kept else dropped

  unfoldable pub cleanup_bindings : Source → List String → Client → List String × Client
  unfolding cleanup
  cleanup_bindings s subjects c = cleanup s subjects (b.bindings c.log (address_name s) s.name) c

  abbrev pub binding_key : Source → String
  binding_key s = append s.name (append ":" (join ":" (source_subjects s)))

  unfoldable pub declare_binding : Source → Bool → Done
  unfolding say_all
  declare_binding s force c =
      if is_some (get c.known_bindings (binding_key s)) && not force
      then (ok tt, c)
      else (do
        say b Command.standby_channel
        say_all (bindings_of s (binding_subjects s))
        modify (λ c'. (cleanup_bindings s (binding_subjects s) c').1)
        modify (λ c'. record c' { known_bindings = add c'.known_bindings (binding_key s) true }))
          c
