-- ===== src/Amqp/Declare/Filters.antt =====
-- The arguments that declareBinding of internal/provider/connectors/amqp091/amqp091.go makes of a filter.
use arke.Common.{
  String, ◌≡◌, refl, ap, ◌∙◌, Bool, true, false, ◌&&◌, Option, none, some, List, [], ◌∷◌, str_eq,
  arith, if◌then◌else◌,
}
use arke.ConcurrentMap.{lookup, insert, lookup-insert}
use arke.Api.{Filter}
use arke.Amqp.Declare.Bind.{Matches, insert_all, with_mode, match_headers}

abbrev pub is_cons : {A : Type 0} → List A → Bool
is_cons [] = false
is_cons (x ∷ xs) = true

-- The value of the last match with that name, or what was there before.
abbrev pub last_match : String → Matches → Option String → Option String
last_match k [] before = before
last_match k ((j, v) ∷ l) before = last_match k l (if str_eq j k then some v else before)

abbrev pub mode : Bool → String
mode any_match = if any_match then "any" else "all"

-- An argument of a filter: how many matches must hold, unless there is none, or what a match asks for.
abbrev pub argument : Filter → String → Option String
argument f k =
    if is_cons f.matches && str_eq "x-match" k
    then some (mode f.any_match)
    else last_match k f.matches none

lookup-insert_all :
    (k : String) (l t : Matches) → lookup k (insert_all l t) ≡ last_match k l (lookup k t)
unfolding insert_all
lookup-insert_all k [] t = refl
lookup-insert_all k ((j, v) ∷ l) t =
    lookup-insert_all k l (insert j v t) ∙ ap (last_match k l) (lookup-insert j k v t)

insert-cons : (k v : String) (t : Matches) → is_cons (insert k v t) ≡ true
insert-cons k v [] = refl
insert-cons k v ((j, w) ∷ t) = ground arith

insert_all-cons : (l t : Matches) → is_cons t ≡ true → is_cons (insert_all l t) ≡ true
unfolding insert_all
insert_all-cons [] t h = h
insert_all-cons ((j, v) ∷ l) t h = insert_all-cons l (insert j v t) (insert-cons j v t)

lookup-with_mode :
    (any_match : Bool) (k : String) (t : Matches)
    → is_cons t ≡ true
    → lookup k (with_mode any_match t)
      ≡ (if str_eq "x-match" k then some (mode any_match) else lookup k t)
unfolding with_mode
lookup-with_mode any_match k [] h = absurd (ground (arith, h))
lookup-with_mode any_match k (m ∷ t) h = lookup-insert "x-match" k (mode any_match) (m ∷ t)

pub lookup-match_headers : (f : Filter) (k : String) → lookup k (match_headers f) ≡ argument f k
unfolding match_headers with_mode insert_all
lookup-match_headers f k = go f.matches
  where
    go :
        (l : Matches)
        → lookup k (with_mode f.any_match (insert_all l [])) ≡ (
            if is_cons l && str_eq "x-match" k
            then some (mode f.any_match)
            else last_match k l none)
    go [] = refl
    go ((j, v) ∷ l) =
        lookup-with_mode f.any_match k (insert_all ((j, v) ∷ l) [])
          (insert_all-cons l (insert j v []) refl)
        ∙ ap (λ o. if str_eq "x-match" k then some (mode f.any_match) else o)
            (lookup-insert_all k ((j, v) ∷ l) [])
