-- ===== src/SafeBuffer/Examples.antt =====
-- A buffer of three places and five values, for the theorem on buffers.
use arke.Common.{ℕ, ◌≡◌, refl, none, some, List, [], ◌∷◌, ◌++◌}
use arke.SafeBuffer.{new_safe_buffer, add}
use arke.SafeBuffer.Recent.{add_all}

abbrev four : List ℕ
four = 1 ∷ 2 ∷ 3 ∷ 4 ∷ []

keeps_three :
    add_all (four ++ (5 ∷ [])) (new_safe_buffer 3)
    ≡ some (record { ring = some 3 ∷ some 4 ∷ some 5 ∷ [] })
unfolding add_all add new_safe_buffer
keeps_three = refl

no_ring : add {A = ℕ} 1 (new_safe_buffer 0) ≡ none
unfolding add new_safe_buffer
no_ring = refl
