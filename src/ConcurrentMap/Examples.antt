-- ===== src/ConcurrentMap/Examples.antt =====
-- A map of numbers, for the theorems on the map.
use arke.Common.{ℕ, ◌≡◌, Bool, List, [], ◌∷◌, ◌==◌, is_some}
use arke.ConcurrentMap.Defs.{ConcurrentMap, new_concurrent_map, add, get, get_list, contains}
use arke.ConcurrentMap.Laws.{new_concurrent_map-IsUnique, add-IsUnique, contains-get_list, IsUnique}
use arke.ConcurrentMap.Runs.{Call, run, table_run, get-run, run-IsUnique}

abbrev two : ConcurrentMap ℕ
two = add (add new_concurrent_map "a" 1) "b" 2

two-IsUnique : IsUnique two
two-IsUnique =
    add-IsUnique (add new_concurrent_map "a" 1) "b" 2
      (add-IsUnique new_concurrent_map "a" 1 (new_concurrent_map-IsUnique ℕ))

abbrev same : ℕ → ℕ → Bool
same a b = a == b

abbrev calls : List (Call same)
calls = Call.adds "c" 3 ∷ Call.deletes_if_equal "a" 1 ∷ Call.deletes "b" ∷ []

get-run_example : get (run same two calls) "a" ≡ table_run same (λ k. get two k) calls "a"
get-run_example = get-run same two calls "a"

run-IsUnique_example : IsUnique (run same two calls)
run-IsUnique_example = run-IsUnique same two calls two-IsUnique

contains-get_list_example : contains "b" (get_list two) ≡ is_some (get two "b")
contains-get_list_example = contains-get_list two "b"
