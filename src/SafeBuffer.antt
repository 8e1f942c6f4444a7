-- ===== src/SafeBuffer.antt =====
-- internal/util/safe_buffer.go: a ring that keeps the newest values. The ring is a list that starts at
-- the current element; each method holds the mutex throughout. Recent says what is in a buffer.
pub mod Recent
mod Examples
use arke.Common.{ℕ, Option, none, some, List, [], ◌∷◌, ◌++◌, replicate}

pub record SafeBuffer (A : Type 0) : Type 0 where
  pub ring : List (Option A)

module _ {A : Type 0} where
  -- `ring.New`, which makes no ring at all for a size of 0
  unfoldable pub new_safe_buffer : ℕ → SafeBuffer A
  new_safe_buffer size = record { ring = replicate size none }

  -- None is the panic on no ring.
  unfoldable pub add : A → SafeBuffer A → Option (SafeBuffer A)
  add v b = elim b.ring [ [] ↦ none | x ∷ xs ↦ some (record { ring = xs ++ (some v ∷ []) }) ]

  abbrev last : Option A → List (Option A) → Option A
  last x [] = x
  last x (y ∷ ys) = last y ys

  -- The element before the current one.
  unfoldable pub get_most_recent : SafeBuffer A → Option A
  get_most_recent b = elim b.ring [ [] ↦ none | x ∷ xs ↦ last x xs ]

  abbrev pub present : List (Option A) → List A
  present [] = []
  present (none ∷ xs) = present xs
  present (some a ∷ xs) = a ∷ present xs

  unfoldable pub get_data : SafeBuffer A → List A
  get_data b = present b.ring
