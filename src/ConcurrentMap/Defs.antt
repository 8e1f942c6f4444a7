-- ===== src/ConcurrentMap/Defs.antt =====
-- The methods of internal/util/concurrentMap.go.
use arke.Common.{
  ℕ, String, Bool, true, false, ◌||◌, Option, none, some, List, [], ◌∷◌, length, map, str_eq,
  if◌then◌else◌,
}

pub record ConcurrentMap {ℓ} (V : Type ℓ) : Type ℓ where
  pub items : List (String × V)

module _ {ℓ} {V : Type ℓ} where
  abbrev pub lookup : String → List (String × V) → Option V
  lookup k [] = none
  lookup k ((j, v) ∷ m) = if str_eq j k then some v else lookup k m

  -- `cm.items[key] = item`
  abbrev pub insert : String → V → List (String × V) → List (String × V)
  insert k v [] = (k, v) ∷ []
  insert k v ((j, w) ∷ m) = if str_eq j k then (k, v) ∷ m else (j, w) ∷ insert k v m

  -- `delete(cm.items, key)`
  abbrev pub erase : String → List (String × V) → List (String × V)
  erase k [] = []
  erase k ((j, w) ∷ m) = if str_eq j k then erase k m else (j, w) ∷ erase k m

  unfoldable pub new_concurrent_map : ConcurrentMap V
  new_concurrent_map = record { items = [] }

  unfoldable pub add : ConcurrentMap V → String → V → ConcurrentMap V
  add cm key item = record { items = insert key item cm.items }

  unfoldable pub delete : ConcurrentMap V → String → ConcurrentMap V
  delete cm key = record { items = erase key cm.items }

  unfoldable pub get : ConcurrentMap V → String → Option V
  get cm key = lookup key cm.items

  -- `same` is Go's == on the stored values.
  unfoldable pub delete_if_equal :
      (V → V → Bool) → ConcurrentMap V → String → V → ConcurrentMap V × Bool
  delete_if_equal same cm key expected = elim (lookup key cm.items) [
    | none ↦ (cm, false)
    | some item ↦
        if same item expected then (record { items = erase key cm.items }, true) else (cm, false)
  ]

  unfoldable pub get_list : ConcurrentMap V → List String
  get_list cm = map (λ e. e.0) cm.items

  unfoldable pub map_length : ConcurrentMap V → ℕ
  map_length cm = length cm.items

-- `slices.Contains`
abbrev pub contains : String → List String → Bool
contains k [] = false
contains k (j ∷ l) = str_eq j k || contains k l
