-- ===== src/Common/Text.antt =====
-- What the program uses of Go's packages strings and strconv.
use Prim.Native.Char.{code}
use Prim.Native.Nat.{ℕ, zero, suc, ◌+◌, ◌-◌, ◌*◌, ◌/◌, ◌%◌, ◌^◌}
use Prim.Native.String.{String, ◌++◌, len, slice}
use mathlib.Core.Path.{◌≡◌, refl}
use mathlib.Core.Bool.{Bool, true, false, ◌&&◌}
use mathlib.Core.Option.{Option, none, some}
use mathlib.Core.List.{List, [], ◌∷◌}
use native.Mathlib.Omega.{arith}
use text.Mathlib.Text.{◌==◌ as str_eq, find?}
use text.Mathlib.TextPositions.{eq_refl, len-append, slice-append_right}
use arke.Common.Tests.{leb, is_some, ◌==◌, if◌then◌else◌}
use arke.Common.Int.{ℤ, pos, negsuc, sub_ℕ}

-- `strings.Contains`
abbrev pub contains_text : String → String → Bool
contains_text s t = is_some (find? s t)

-- `strings.Replace(s, t, "", 1)`
unfoldable pub remove_first : String → String → String
remove_first s t = elim (find? s t) [
  | none ↦ s
  | some i ↦ slice s 0 i ++ slice s (i + len t) (len s)
]

remove_first_examples :
    (remove_first "a.quorum" ".quorum" ≡ "a") × (remove_first "a" ".quorum" ≡ "a")
unfolding remove_first
remove_first_examples = (refl, refl)

-- `strings.HasSuffix`
unfoldable pub has_suffix : String → String → Bool
has_suffix s t = leb (len t) (len s) && str_eq (slice s (len s - len t) (len s)) t

pub has_suffix-append : (s t : String) → has_suffix (s ++ t) t ≡ true
unfolding has_suffix
has_suffix-append s t =
    let start : len s + len t - len t ≡ len s = omega arith in
    rw (len-append, start, slice-append_right, eq_refl) (ground arith)

-- `strings.Join`
abbrev pub join : String → List String → String
join sep [] = String.[]
join sep (x ∷ []) = x
join sep (x ∷ y ∷ l) = x ++ (sep ++ join sep (y ∷ l))

-- The value of a run of decimal digits that starts at `acc`.
digits_value : ℕ → String → Option ℕ
digits_value acc String.[] = some acc
digits_value acc (String.◌∷◌ c s) =
    let rest = digits_value (acc * 10 + (code c - b'0')) s in
    if leb b'0' (code c) && leb (code c) b'9' then rest else none

unsigned_value : String → Option ℕ
unfolding digits_value
unsigned_value String.[] = none
unsigned_value (String.◌∷◌ c s) = digits_value 0 (String.◌∷◌ c s)

signed_value : Bool → ℕ → Option ℤ
signed_value false n = if leb (2 ^ 63) n then none else some (pos n)
signed_value true n = if leb n (2 ^ 63) then some (sub_ℕ 0 n) else none

with_sign : Bool → Option ℕ → Option ℤ
with_sign negative none = none
with_sign negative (some n) = signed_value negative n

-- `strconv.Atoi` on a 64-bit machine: an optional sign, then digits, within the range of int64.
unfoldable pub atoi : String → Option ℤ
unfolding unsigned_value with_sign signed_value
atoi String.[] = none
atoi (String.◌∷◌ c s) =
    if code c == b'-'
    then with_sign true (unsigned_value s)
    else if code c == b'+'
    then with_sign false (unsigned_value s)
    else with_sign false (unsigned_value (String.◌∷◌ c s))

atoi_examples :
    (atoi "300000" ≡ some (pos 300000))
    × (atoi "-7" ≡ some (negsuc 6))
    × (atoi "5m" ≡ none)
    × (atoi "" ≡ none)
unfolding atoi
atoi_examples = (refl, refl, refl, refl)

-- One decimal digit.
digit : ℕ → String
digit d =
    if d == 0
    then "0"
    else if d == 1
    then "1"
    else if d == 2
    then "2"
    else if d == 3
    then "3"
    else if d == 4
    then "4"
    else if d == 5
    then "5"
    else if d == 6
    then "6"
    else if d == 7
    then "7"
    else if d == 8
    then "8"
    else "9"

-- The decimal digits of `n`. The fuel is above `n`, so that it never runs out.
digits_text : ℕ → ℕ → String
unfolding digit
digits_text zero n = String.[]
digits_text (suc f) n =
    let more = digits_text f (n / 10) ++ digit (n % 10) in if leb n 9 then digit n else more

unsigned_text : ℕ → String
unfolding digits_text
unsigned_text n = digits_text (suc n) n

-- `strconv.Itoa`
unfoldable pub itoa : ℤ → String
unfolding unsigned_text
itoa (pos n) = unsigned_text n
itoa (negsuc n) = "-" ++ unsigned_text (suc n)

itoa_examples : (itoa (pos 30000) ≡ "30000") × (itoa (pos 0) ≡ "0") × (itoa (negsuc 11) ≡ "-12")
unfolding itoa
itoa_examples = (refl, refl, refl)

-- The lower case of a code, as far as an ASCII letter comes out; the last two are the dotted capital I
-- and the sign for kelvin.
lower_code : ℕ → ℕ
lower_code c =
    if leb b'A' c && leb c b'Z'
    then c + 32
    else if c == 304
    then b'i'
    else if c == 8490
    then b'k'
    else c

-- `strings.ToLower(s) == t` for a text `t` of ASCII letters in lower case
unfoldable pub lower_is : String → String → Bool
unfolding lower_code
lower_is String.[] String.[] = true
lower_is String.[] (String.◌∷◌ d t) = false
lower_is (String.◌∷◌ c s) String.[] = false
lower_is (String.◌∷◌ c s) (String.◌∷◌ d t) = lower_code (code c) == code d && lower_is s t

lower_is_examples :
    (lower_is "First" "first" ≡ true)
    × (lower_is "firs" "first" ≡ false)
    × (lower_is "" "first" ≡ false)
unfolding lower_is
lower_is_examples = (refl, refl, refl)
