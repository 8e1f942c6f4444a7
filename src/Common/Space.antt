-- ===== src/Common/Space.antt =====
-- White space in Go's packages strings and unicode.
use Prim.Native.Char.{Char, code}
use Prim.Native.String.{String}
use mathlib.Core.Path.{◌≡◌, refl}
use mathlib.Core.Bool.{Bool, ◌&&◌, ◌||◌}
use arke.Common.Tests.{leb, ◌==◌, if◌then◌else◌}

-- `unicode.IsSpace`
unfoldable pub is_space : Char → Bool
is_space c =
    let n = code c in
    leb 9 n && leb n 13
    || n == 32
    || n == 133
    || n == 160
    || n == 5760
    || leb 8192 n && leb n 8202
    || n == 8232
    || n == 8233
    || n == 8239
    || n == 8287
    || n == 12288

unfoldable pub trim_left : String → String
trim_left String.[] = String.[]
trim_left (String.◌∷◌ c s) = let rest = trim_left s in if is_space c then rest else String.◌∷◌ c s

unfoldable pub cons_unless_space : Char → String → String
cons_unless_space c String.[] = if is_space c then String.[] else String.◌∷◌ c String.[]
cons_unless_space c (String.◌∷◌ d s) = String.◌∷◌ c (String.◌∷◌ d s)

unfoldable pub trim_right : String → String
unfolding cons_unless_space
trim_right String.[] = String.[]
trim_right (String.◌∷◌ c s) = cons_unless_space c (trim_right s)

-- `strings.TrimSpace`
unfoldable pub trim_space : String → String
trim_space s = trim_right (trim_left s)

-- The text up to the first white space.
unfoldable pub word : String → String
word String.[] = String.[]
word (String.◌∷◌ c s) = let rest = word s in if is_space c then String.[] else String.◌∷◌ c rest

-- `strings.Fields(s)[0]`, "" if there are none
unfoldable pub first_field : String → String
first_field s = word (trim_left s)

trim_space_examples :
    (trim_space "  a b \n" ≡ "a b") × (trim_space "" ≡ "") × (first_field " max 100" ≡ "max")
unfolding trim_space trim_left trim_right first_field word is_space
trim_space_examples = (refl, refl, refl)
