-- ===== src/ConcurrentMap/Runs.antt =====
-- Any sequence of calls on the map of internal/util/concurrentMap.go, against a partial function.
use mathlib.Core.Path.{fun_ext}
use arke.Common.{
  String, ◌≡◌, refl, Bool, Option, none, some, List, [], ◌∷◌, arith, str_eq, eq_iff, if◌then◌else◌,
}
use arke.ConcurrentMap.Defs.{ConcurrentMap, add, delete, get, delete_if_equal}
use arke.ConcurrentMap.Laws.{
  get-add, get-delete, get-delete_if_equal, IsUnique, add-IsUnique, delete-IsUnique,
  delete_if_equal-IsUnique,
}

module _ {V : Type 0} (same : V → V → Bool) where
  -- The calls that write, in the order in which they take the lock.
  pub data Call : Type 0 where
    adds : String → V → Call
    deletes : String → Call
    deletes_if_equal : String → V → Call

  pub apply_call : ConcurrentMap V → Call → ConcurrentMap V
  apply_call m (adds k v) = add m k v
  apply_call m (deletes k) = delete m k
  apply_call m (deletes_if_equal k v) = (delete_if_equal same m k v).0

  pub run : ConcurrentMap V → List Call → ConcurrentMap V
  run m [] = m
  run m (c ∷ cs) = run (apply_call m c) cs

  -- The map as a partial function.
  abbrev pub Table : Type 0
  Table = String → Option V

  abbrev drop_if : Option V → V → Option V
  drop_if none v = none
  drop_if (some w) v = if same w v then none else some w

  pub table_call : Table → Call → Table
  table_call f (adds k v) j = if str_eq k j then some v else f j
  table_call f (deletes k) j = if str_eq k j then none else f j
  table_call f (deletes_if_equal k v) j = if str_eq k j then drop_if (f k) v else f j

  pub table_run : Table → List Call → Table
  table_run f [] = f
  table_run f (c ∷ cs) = table_run (table_call f c) cs

  get-apply_call :
      (m : ConcurrentMap V) (c : Call) (j : String)
      → get (apply_call m c) j ≡ table_call (λ k. get m k) c j
  unfolding apply_call table_call
  get-apply_call m (adds k v) j = get-add m k v j
  get-apply_call m (deletes k) j = get-delete m k j
  get-apply_call m (deletes_if_equal k v) j =
      unfold delete_if_equal get in
      ground (arith, get-delete_if_equal same m k v j, get-delete m k j, eq_iff k j)

  -- After any sequence of calls a lookup answers what the partial function does that the same calls
  -- have changed point by point.
  pub get-run :
      (m : ConcurrentMap V) (cs : List Call) (j : String)
      → get (run m cs) j ≡ table_run (λ k. get m k) cs j
  unfolding run table_run
  get-run m [] j = refl
  get-run m (c ∷ cs) j = rw (← fun_ext (get-apply_call m c)) (get-run (apply_call m c) cs j)

  apply_call-IsUnique : (m : ConcurrentMap V) (c : Call) → IsUnique m → IsUnique (apply_call m c)
  unfolding apply_call
  apply_call-IsUnique m (adds k v) u = add-IsUnique m k v u
  apply_call-IsUnique m (deletes k) u = delete-IsUnique m k u
  apply_call-IsUnique m (deletes_if_equal k v) u = delete_if_equal-IsUnique same m k v u

  -- Calls keep the keys distinct.
  pub run-IsUnique : (m : ConcurrentMap V) (cs : List Call) → IsUnique m → IsUnique (run m cs)
  unfolding run
  run-IsUnique m [] u = u
  run-IsUnique m (c ∷ cs) u = run-IsUnique (apply_call m c) cs (apply_call-IsUnique m c u)
