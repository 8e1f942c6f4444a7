-- ===== src/Common/Query.antt =====
-- `url.QueryEscape` of Go's package net/url.
use Prim.Native.Char.{Char, code}
use Prim.Native.Nat.{ℕ, ◌+◌, ◌/◌, ◌%◌}
use Prim.Native.String.{String, ◌++◌}
use mathlib.Core.Path.{◌≡◌, refl}
use mathlib.Core.Bool.{Bool, ◌&&◌, ◌||◌}
use arke.Common.Tests.{leb, ◌==◌, if◌then◌else◌}

-- Letters, digits and the four other characters that stay.
unreserved : ℕ → Bool
unreserved n =
    leb b'a' n && leb n b'z'
    || leb b'A' n && leb n b'Z'
    || leb b'0' n && leb n b'9'
    || n == b'-'
    || n == b'_'
    || n == b'.'
    || n == b'~'

hex : ℕ → String
hex d =
    if d == 0
    then "0"
    else if d == 1
    then "1"
    else if d == 2
    then "2"
    else if d == 3
    then "3"
    else if d == 4
    then "4"
    else if d == 5
    then "5"
    else if d == 6
    then "6"
    else if d == 7
    then "7"
    else if d == 8
    then "8"
    else if d == 9
    then "9"
    else if d == 10
    then "A"
    else if d == 11
    then "B"
    else if d == 12
    then "C"
    else if d == 13
    then "D"
    else if d == 14
    then "E"
    else "F"

percent : ℕ → String
unfolding hex
percent b = "%" ++ (hex (b / 16) ++ hex (b % 16))

-- The bytes of a code in UTF-8, each after a percent sign.
escaped : ℕ → String
unfolding percent
escaped n =
    if leb n 127
    then percent n
    else if leb n 2047
    then percent (192 + n / 64) ++ percent (128 + n % 64)
    else if leb n 65535
    then percent (224 + n / 4096) ++ (percent (128 + n / 64 % 64) ++ percent (128 + n % 64))
    else percent (240 + n / 262144)
      ++ (percent (128 + n / 4096 % 64) ++ (percent (128 + n / 64 % 64) ++ percent (128 + n % 64)))

escape_char : Char → String
unfolding unreserved escaped
escape_char c =
    if unreserved (code c)
    then String.◌∷◌ c String.[]
    else if code c == b' '
    then "+"
    else escaped (code c)

unfoldable pub query_escape : String → String
unfolding escape_char
query_escape String.[] = String.[]
query_escape (String.◌∷◌ c s) = escape_char c ++ query_escape s

query_escape_examples :
    (query_escape "/" ≡ "%2F") × (query_escape "a b-c" ≡ "a+b-c") × (query_escape "é" ≡ "%C3%A9")
unfolding query_escape
query_escape_examples = (refl, refl, refl)
