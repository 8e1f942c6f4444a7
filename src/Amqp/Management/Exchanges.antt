-- ===== src/Amqp/Management/Exchanges.antt =====
-- loadExchanges of internal/provider/connectors/amqp091/amqp091.go: the exchanges that the broker has are
-- known from the start.
use Prim.Native.String.{◌++◌ as append}
use arke.Common.{
  ℕ, ◌≡◌, ◌≢◌, ◌⊎◌, inl, inr, subst, refl, sym, arith, String, Bool, true, false, ◌||◌, Option,
  none, some, List, [], ◌∷◌, ok, str_eq, is_some,
}
use arke.Common.Query.{query_escape}
use arke.ConcurrentMap.{get, get-add}
use arke.Api.{AddressNode, ConnectionConfiguration}
use arke.Amqp.Wire.{Broker}
use arke.Amqp.Client.{Client}
use arke.Amqp.Declare.{know_exchange, exchange_unless_known}
use arke.Amqp.Management.Defs.{
  Json, null_value, text, array, object, Values, no_values, value, Fields, Body, json, Http,
  tenant_of, management_request, lookup_field,
}

-- The objects of an array, none if the body is no array of objects. A null is an object without fields.
unfoldable pub objects_in : Values → Option (List Fields)
objects_in no_values = some []
objects_in (value (object f) rest) = elim (objects_in rest) [ none ↦ none | some l ↦ some (f ∷ l) ]
objects_in (value null_value rest) = elim (objects_in rest) [
  | none ↦ none
  | some l ↦ some (Fields.no_fields ∷ l)
]
objects_in (value _ rest) = none

unfoldable pub unmarshal_objects : Body → Option (List Fields)
unmarshal_objects (json (array l)) = objects_in l
unmarshal_objects (json null_value) = some []
unmarshal_objects _ = none

know_named : Option Json → Client → Client
know_named (some (text name)) c = know_exchange name c
know_named _ c = c

unfoldable pub know_all : List Fields → Client → Client
unfolding know_named
know_all [] c = c
know_all (f ∷ l) c = know_all l (know_named (lookup_field "name" f) c)

unfoldable pub load_exchanges_from : Body × Option String → Client → Client
load_exchanges_from (body, some e) c = c
load_exchanges_from (body, none) c = elim (unmarshal_objects body) [
  | none ↦ c
  | some l ↦ know_all l c
]

unfoldable pub exchanges_urn : ConnectionConfiguration → String
exchanges_urn cf = append "/api/exchanges/" (query_escape (tenant_of cf))

unfoldable pub load_exchanges : Http → Bool → ℕ → ConnectionConfiguration → Client → Client
load_exchanges http tls admin_port cf c =
    load_exchanges_from (management_request http tls admin_port cf "GET" (exchanges_urn cf)) c

-- An object whose name is that text.
names : String → Option Json → Bool
names n (some (text t)) = str_eq t n
names n _ = false

unfoldable pub listed : String → List Fields → Bool
unfolding names
listed n [] = false
listed n (f ∷ l) = names n (lookup_field "name" f) || listed n l

abbrev pub known : String → Client → Bool
known n c = is_some (get c.known_exchanges n)

known-know_named :
    (n : String) (o : Option Json) (c : Client)
    → known n (know_named o c) ≡ (names n o || known n c)
unfolding know_named names
known-know_named n (some (text t)) c = ground (arith, get-add c.known_exchanges t true n)
known-know_named n none c = refl
known-know_named n (some j) c = refl

known-know_all :
    (n : String) (l : List Fields) (c : Client) → known n (know_all l c) ≡ (listed n l || known n c)
unfolding know_all listed
known-know_all n [] c = refl
known-know_all n (f ∷ l) c = ground (
  arith,
  known-know_all n l (know_named (lookup_field "name" f) c),
  known-know_named n (lookup_field "name" f) c,
)

known-unsaid :
    (b : Broker) (a : AddressNode) (c : Client)
    → known a.name c ≡ true
    → exchange_unless_known b a c ≡ (ok tt, c)
unfolding exchange_unless_known
known-unsaid b a c h = ground (arith, h)

Loaded : Broker → Client → Body × Option String → Type 0
Loaded b c (body, e) =
    let c' = load_exchanges_from (body, e) c in
    ((l : List Fields)
      → e ≡ none
      → unmarshal_objects body ≡ some l
      → (a : AddressNode)
      → (known a.name c' ≡ (listed a.name l || known a.name c))
        × (listed a.name l ≡ true → exchange_unless_known b a c' ≡ (ok tt, c')))
    × ((e ≢ none) ⊎ (unmarshal_objects body ≡ none) → c' ≡ c)

loaded_from :
    (b : Broker) (c : Client) (body : Body) (l : List Fields)
    → unmarshal_objects body ≡ some l
    → load_exchanges_from (body, none) c ≡ know_all l c
unfolding load_exchanges_from
loaded_from b c body l h = rw (load_exchanges_from, h) refl

known_lem :
    (b : Broker) (c : Client) (l : List Fields) (a : AddressNode)
    → (known a.name (know_all l c) ≡ (listed a.name l || known a.name c))
      × (listed a.name l ≡ true → exchange_unless_known b a (know_all l c) ≡ (ok tt, know_all l c))
known_lem b c l a =
    let all = known-know_all a.name l c in
    (all, λ h. known-unsaid b a (know_all l c) (ground (arith, all, h)))

loaded_lem : (b : Broker) (c : Client) (x : Body × Option String) → Loaded b c x
unfolding Loaded load_exchanges_from
loaded_lem b c (body, some x) = (λ l g. absurd (cc g), λ _. refl)
loaded_lem b c (body, none) = (
  λ l _ h a.
      subst
        (λ c'.
          (known a.name c' ≡ (listed a.name l || known a.name c))
          × (listed a.name l ≡ true → exchange_unless_known b a c' ≡ (ok tt, c')))
        (sym (loaded_from b c body l h)) (known_lem b c l a),
  λ o. elim o [ inl ne ↦ absurd (ne refl) | inr h ↦ rw (load_exchanges_from, h) refl ],
)

-- When the management API lists the exchanges, loading them makes an exchange known exactly if it was known
-- or is in the list, and an exchange that is in the list is not declared again: declaring it says nothing to the broker
-- and changes nothing. When the request fails or its body is no list of objects, loading changes nothing.
load_exchanges_lem :
    (http : Http) (tls : Bool) (admin_port : ℕ) (cf : ConnectionConfiguration) (b : Broker)
    (c : Client)
    → let answer = management_request http tls admin_port cf "GET" (exchanges_urn cf) in
      let c' = load_exchanges http tls admin_port cf c in
      ((l : List Fields)
        → answer.1 ≡ none
        → unmarshal_objects answer.0 ≡ some l
        → (a : AddressNode)
        → (known a.name c' ≡ (listed a.name l || known a.name c))
          × (listed a.name l ≡ true → exchange_unless_known b a c' ≡ (ok tt, c')))
      × ((answer.1 ≢ none) ⊎ (unmarshal_objects answer.0 ≡ none) → c' ≡ c)
unfolding load_exchanges Loaded
load_exchanges_lem http tls admin_port cf b c =
    loaded_lem b c (management_request http tls admin_port cf "GET" (exchanges_urn cf))
