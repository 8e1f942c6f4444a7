-- ===== src/SafeBuffer/Recent.antt =====
-- The contents of a buffer of internal/util/safe_buffer.go after any number of values.
use mathlib.Core.List.{append_assoc, append-nil, map-append}
use arke.Common.{
  ℕ, zero, suc, ◌-◌, ◌≡◌, refl, ap, sym, ◌∙◌, ◌≤◌, Option, none, some, List, [], ◌∷◌, ◌++◌, map,
  length, replicate, drop, arith, length-append, length-replicate,
}
use arke.SafeBuffer.{SafeBuffer, new_safe_buffer, add, get_most_recent, present, get_data, last}

module _ {A : Type 0} where
  -- Values added one after the other.
  unfoldable pub add_all : List A → SafeBuffer A → Option (SafeBuffer A)
  add_all [] b = some b
  add_all (v ∷ vs) b = elim (add v b) [ none ↦ none | some b' ↦ add_all vs b' ]

  -- A ring of n places, with what comes after it: n values further on it starts where the later
  -- values push it to.
  add_all-drop :
      (vs : List A) (x : Option A) (xs : List (Option A))
      → add_all vs (record { ring = x ∷ xs })
        ≡ some (record { ring = drop (length vs) ((x ∷ xs) ++ map some vs) })
  unfolding add_all add
  add_all-drop [] x xs = ap (λ t. some (record { ring = x ∷ t })) (sym (append-nil xs))
  add_all-drop (v ∷ vs) x [] = add_all-drop vs (some v) []
  add_all-drop (v ∷ vs) x (y ∷ ys) =
      add_all-drop vs y (ys ++ (some v ∷ []))
      ∙ ap (λ t. some (record { ring = drop (length vs) (y ∷ t) }))
          (append_assoc ys (some v ∷ []) (map some vs))

  present-map : (k : ℕ) (vs : List A) → present (drop k (map some vs)) ≡ drop k vs
  present-map zero [] = refl
  present-map (suc k) [] = refl
  present-map zero (v ∷ vs) = ap (λ t. v ∷ t) (present-map zero vs)
  present-map (suc k) (v ∷ vs) = present-map k vs

  -- The places that have never been written come first, and count for nothing.
  present-drop :
      (k n : ℕ) (vs : List A) → present (drop k (replicate n none ++ map some vs)) ≡ drop (k - n) vs
  present-drop k zero vs = present-map k vs ∙ ap (λ t. drop t vs) (omega arith)
  present-drop zero (suc n) vs = present-drop zero n vs ∙ ap (λ t. drop t vs) (omega arith)
  present-drop (suc k) (suc n) vs = present-drop k n vs ∙ ap (λ t. drop t vs) (omega arith)

  length-map : {B : Type 0} (f : A → B) (xs : List A) → length (map f xs) ≡ length xs
  length-map f [] = refl
  length-map f (x ∷ xs) = ap suc (length-map f xs)

  drop-snoc :
      (k : ℕ) (xs : List (Option A)) (y : Option A)
      → k ≤ length xs
      → drop k (xs ++ (y ∷ [])) ≡ drop k xs ++ (y ∷ [])
  drop-snoc zero xs y h = refl
  drop-snoc (suc k) [] y h = absurd (omega arith)
  drop-snoc (suc k) (x ∷ xs) y h = drop-snoc k xs y (omega arith)

  last-snoc : (x y : Option A) (xs : List (Option A)) → last x (xs ++ (y ∷ [])) ≡ y
  last-snoc x y [] = refl
  last-snoc x y (z ∷ xs) = last-snoc z y xs

  get_most_recent-snoc :
      (xs : List (Option A)) (y : Option A) → get_most_recent (record { ring = xs ++ (y ∷ []) }) ≡ y
  unfolding get_most_recent
  get_most_recent-snoc [] y = refl
  get_most_recent-snoc (x ∷ xs) y = last-snoc x y xs

  -- After any number of values, a buffer with n + 1 places has the newest n + 1 of them, or all if there
  -- are fewer, in the order in which they came, and GetMostRecent gives the newest one.
  pub add_all-recent :
      (n : ℕ) (vs : List A) (v : A)
      → (b : SafeBuffer A) × (add_all (vs ++ (v ∷ [])) (new_safe_buffer (suc n)) ≡ some b)
        × (get_data b ≡ drop (length (vs ++ (v ∷ [])) - suc n) (vs ++ (v ∷ [])))
        × (get_most_recent b ≡ some v)
  unfolding new_safe_buffer get_data
  add_all-recent n vs v =
      let all : List A = vs ++ (v ∷ []) in
      let blank : List (Option A) = replicate (suc n) none in
      let k : ℕ = length all in
      let split : blank ++ map some all ≡ (blank ++ map some vs) ++ (some v ∷ []) =
        ap (λ t. blank ++ t) (map-append some vs (v ∷ []))
        ∙ sym (append_assoc blank (map some vs) (some v ∷ [])) in
      let fits : k ≤ length (blank ++ map some vs) = omega (
        arith,
        length-append vs (v ∷ []),
        length-append blank (map some vs),
        length-map some vs,
        length-replicate {A = Option A} n none,
      ) in
      (
        record { ring = drop k (blank ++ map some all) },
        add_all-drop all none (replicate n none),
        present-drop k (suc n) all,
        ap (λ t. get_most_recent (record { ring = drop k t })) split
            ∙ ap (λ t. get_most_recent (record { ring = t }))
                (drop-snoc k (blank ++ map some vs) (some v) fits)
            ∙ get_most_recent-snoc (drop k (blank ++ map some vs)) (some v),
      )
