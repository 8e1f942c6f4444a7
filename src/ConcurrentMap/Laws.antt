-- ===== src/ConcurrentMap/Laws.antt =====
-- What a lookup finds after each method, and how many entries there are.
use arke.Common.{
  ℕ, ◌+◌, String, ◌≡◌, refl, Bool, true, false, Option, none, some, List, [], ◌∷◌, length, map,
  arith, str_eq, eq_iff, eq_refl, is_some, if◌then◌else◌,
}
use arke.ConcurrentMap.Defs.{
  ConcurrentMap, lookup, insert, erase, new_concurrent_map, add, delete, get, delete_if_equal,
  get_list, map_length, contains,
}

module _ {ℓ} {V : Type ℓ} where
  pub lookup-insert :
      (k j : String) (v : V) (m : List (String × V))
      → lookup j (insert k v m) ≡ (if str_eq k j then some v else lookup j m)
  lookup-insert k j v [] = refl
  lookup-insert k j v ((i, w) ∷ m) =
      ground (arith, eq_iff k j, eq_iff i k, eq_iff i j, lookup-insert k j v m)

  pub lookup-erase :
      (k j : String) (m : List (String × V))
      → lookup j (erase k m) ≡ (if str_eq k j then none else lookup j m)
  lookup-erase k j [] = ground arith
  lookup-erase k j ((i, w) ∷ m) =
      ground (arith, eq_iff k j, eq_iff i k, eq_iff i j, lookup-erase k j m)

  pub get-new_concurrent_map : (j : String) → get (new_concurrent_map {V = V}) j ≡ none
  unfolding get new_concurrent_map
  get-new_concurrent_map j = refl

  pub get-add :
      (m : ConcurrentMap V) (k : String) (v : V) (j : String)
      → get (add m k v) j ≡ (if str_eq k j then some v else get m j)
  unfolding get add
  get-add m k v j = lookup-insert k j v m.items

  pub get-add_self : (m : ConcurrentMap V) (k : String) (v : V) → get (add m k v) k ≡ some v
  get-add_self m k v = rw (get-add, eq_refl)

  pub get-delete :
      (m : ConcurrentMap V) (k j : String)
      → get (delete m k) j ≡ (if str_eq k j then none else get m j)
  unfolding get delete
  get-delete m k j = lookup-erase k j m.items

  pub get-delete_self : (m : ConcurrentMap V) (k : String) → get (delete m k) k ≡ none
  get-delete_self m k = rw (get-delete, eq_refl)

  -- Only an entry that still holds the expected value goes.
  pub get-delete_if_equal :
      (same : V → V → Bool) (m : ConcurrentMap V) (k : String) (v : V) (j : String)
      → get (delete_if_equal same m k v).0 j ≡ (
          if (delete_if_equal same m k v).1
          then (if str_eq k j then none else get m j)
          else get m j)
  unfolding get delete_if_equal
  get-delete_if_equal same m k v j = ground (arith, lookup-erase k j m.items)

  -- The keys are those at which a lookup finds something.
  pub contains-get_list :
      (m : ConcurrentMap V) (k : String) → contains k (get_list m) ≡ is_some (get m k)
  unfolding get_list get
  contains-get_list m k = go m.items
    where
      go : (l : List (String × V)) → contains k (map (λ e. e.0) l) ≡ is_some (lookup k l)
      go [] = refl
      go ((j, w) ∷ l) = ground (arith, go l)

  -- No key stands twice.
  abbrev pub Unique : List (String × V) → Type ℓ
  Unique [] = Unit
  Unique ((k, v) ∷ l) = (lookup k l ≡ none) × Unique l

  pub IsUnique : ConcurrentMap V → Type ℓ
  IsUnique m = Unique m.items

  insert-Unique : (k : String) (v : V) (l : List (String × V)) → Unique l → Unique (insert k v l)
  insert-Unique k v [] u = (refl, tt)
  insert-Unique k v ((j, w) ∷ l) u =
      ground (arith, insert-Unique k v l u.1, lookup-insert k j v l, eq_iff j k, eq_iff k j)

  erase-Unique : (k : String) (l : List (String × V)) → Unique l → Unique (erase k l)
  erase-Unique k [] u = tt
  erase-Unique k ((j, w) ∷ l) u = ground (arith, erase-Unique k l u.1, lookup-erase k j l)

  pub add-IsUnique : (m : ConcurrentMap V) (k : String) (v : V) → IsUnique m → IsUnique (add m k v)
  unfolding IsUnique add
  add-IsUnique m k v u = insert-Unique k v m.items u

  pub delete-IsUnique : (m : ConcurrentMap V) (k : String) → IsUnique m → IsUnique (delete m k)
  unfolding IsUnique delete
  delete-IsUnique m k u = erase-Unique k m.items u

  pub delete_if_equal-IsUnique :
      (same : V → V → Bool) (m : ConcurrentMap V) (k : String) (v : V)
      → IsUnique m
      → IsUnique (delete_if_equal same m k v).0
  unfolding IsUnique delete_if_equal
  delete_if_equal-IsUnique same m k v u = ground (arith, erase-Unique k m.items u)

  length-insert :
      (k : String) (v : V) (l : List (String × V))
      → length (insert k v l) ≡ length l + (if is_some (lookup k l) then 0 else 1)
  length-insert k v [] = omega arith
  length-insert k v ((j, w) ∷ l) = ground (arith, length-insert k v l)

  erase_of_none :
      (k : String) (l : List (String × V)) → lookup k l ≡ none → length (erase k l) ≡ length l
  erase_of_none k [] h = refl
  erase_of_none k ((j, w) ∷ l) h = ground (arith, erase_of_none k l)

  length-erase :
      (k : String) (l : List (String × V))
      → Unique l
      → length (erase k l) + (if is_some (lookup k l) then 1 else 0) ≡ length l
  length-erase k [] u = omega arith
  length-erase k ((j, w) ∷ l) u =
      ground (arith, length-erase k l u.1, erase_of_none k l, eq_iff j k)

  pub map_length-add :
      (m : ConcurrentMap V) (k : String) (v : V)
      → map_length (add m k v) ≡ map_length m + (if is_some (get m k) then 0 else 1)
  unfolding map_length add get
  map_length-add m k v = length-insert k v m.items

  -- On a map with distinct keys, deleting a key that is present makes the map one entry shorter, and
  -- deleting another leaves its length.
  pub map_length-delete :
      (m : ConcurrentMap V) (k : String)
      → IsUnique m
      → map_length (delete m k) + (if is_some (get m k) then 1 else 0) ≡ map_length m
  unfolding map_length delete get IsUnique
  map_length-delete m k u = length-erase k m.items u

pub new_concurrent_map-IsUnique {ℓ} : (V : Type ℓ) → IsUnique (new_concurrent_map {V = V})
unfolding IsUnique new_concurrent_map
new_concurrent_map-IsUnique V = tt

pub ruleset map_laws = (get-new_concurrent_map, get-add, get-delete, eq_refl)
