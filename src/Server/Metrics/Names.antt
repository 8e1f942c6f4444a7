-- ===== src/Server/Metrics/Names.antt =====
-- The names of the methods in internal/server/prometheus/interceptors.go: methodMap is an optimisation.
use arke.Common.{
  String, Bool, true, ◌&&◌, Option-cases, inl, inr, some, List, [], ◌∷◌, ◌≡◌, refl, sym, ◌∙◌,
  str_eq, eq_iff, Bool-cases, false, ap, arith,
}
use arke.ConcurrentMap.{lookup}
use arke.Server.Metrics.Defs.{method_map, plain_name, method_name, trim_slash, dots_for_slashes}

agree : List (String × String) → Bool
agree [] = true
agree ((k, v) ∷ l) = str_eq (plain_name k) v && agree l

method_map-agree : agree method_map ≡ true
unfolding agree method_map plain_name trim_slash dots_for_slashes
method_map-agree = refl

and_true : (a b : Bool) → (a && b) ≡ true → (a ≡ true) × (b ≡ true)
and_true true b h = (refl, h)
and_true false b h = ground (arith, h)

lookup-agree :
    (l : List (String × String)) (m v : String)
    → agree l ≡ true
    → lookup m l ≡ some v
    → v ≡ plain_name m
unfolding agree
lookup-agree [] m v all found = ground (arith, found)
lookup-agree ((k, w) ∷ l) m v all found =
    let here = eq_iff k m in
    let named = eq_iff (plain_name k) w in
    let both = and_true (str_eq (plain_name k) w) (agree l) all in
    elim (Bool-cases (str_eq k m)) [
      | inl hit ↦
          let same : k ≡ m = here.0 hit in
          let value : w ≡ v = ground (arith, hit, found) in
          sym value ∙ sym (named.0 both.0) ∙ ap plain_name same
      | inr miss ↦ lookup-agree l m v both.1 (ground (arith, miss, found))
    ]

-- The name that UnaryInterceptor finds in methodMap is the name that it, and StreamInterceptor, would
-- make from the full name: for each method, in the map or not.
pub method_name-plain_name : (m : String) → method_name m ≡ plain_name m
unfolding method_name
method_name-plain_name m = elim (Option-cases (lookup m method_map)) [
  | inl e ↦ ground (arith, e)
  | inr (v, e) ↦ ground (arith, e, lookup-agree method_map m v method_map-agree e)
]
