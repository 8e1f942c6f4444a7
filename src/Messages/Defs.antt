-- ===== src/Messages/Defs.antt =====
-- newPropertiesBundle and T of i18n/message_loader.go, and splitLocale, DetectIETF and getLocaleFileNames
-- of i18n. A carriage return at the end of a line is white space that is trimmed anyway.
use Prim.Native.Char.{Char, code}
use Prim.Native.String.{len}
use arke.Common.{
  String, Bool, false, ◌||◌, Option, none, some, List, [], ◌∷◌, str_eq, ◌==◌, leb, if◌then◌else◌,
}
use arke.Common.Space.{trim_space}
use arke.ConcurrentMap.{insert}

unfoldable pub to_first_line : Char → List String → List String
to_first_line c [] = String.◌∷◌ c String.[] ∷ []
to_first_line c (l ∷ ls) = String.◌∷◌ c l ∷ ls

-- `bufio.ScanLines`
unfoldable pub lines_of : String → List String
unfolding to_first_line
lines_of String.[] = []
lines_of (String.◌∷◌ c s) =
    let rest = lines_of s in if code c == b'\n' then String.[] ∷ rest else to_first_line c rest

unfoldable pub to_key : Char → Option (String × String) → Option (String × String)
to_key c none = none
to_key c (some (k, v)) = some (String.◌∷◌ c k, v)

-- `strings.SplitN(s, "=", 2)`, none without an equals sign
unfoldable pub split_equals : String → Option (String × String)
unfolding to_key
split_equals String.[] = none
split_equals (String.◌∷◌ c s) =
    let rest = split_equals s in if code c == b'=' then some (String.[], s) else to_key c rest

-- `strings.HasPrefix(s, "#")`
unfoldable pub is_comment : String → Bool
is_comment String.[] = false
is_comment (String.◌∷◌ c s) = code c == b'#'

abbrev pub Bundle : Type 0
Bundle = List (String × String)

unfoldable pub add_entry : Option (String × String) → Bundle → Bundle
add_entry none m = m
add_entry (some (k, v)) m = insert (trim_space k) (trim_space v) m

unfoldable pub add_trimmed : String → Bundle → Bundle
unfolding add_entry
add_trimmed line m =
    if str_eq line "" || is_comment line then m else add_entry (split_equals line) m

unfoldable pub add_lines : List String → Bundle → Bundle
unfolding add_trimmed
add_lines [] m = m
add_lines (l ∷ ls) m = add_lines ls (add_trimmed (trim_space l) m)

-- The longest line that the scanner takes has 64 KB, with its newline.
abbrev pub is_too_long : String → Bool
is_too_long line = leb 65536 (len line)

-- The lines before the first that is too long, where the scanner stops with an error.
unfoldable pub scanned : List String → List String
scanned [] = []
scanned (l ∷ ls) = let rest = scanned ls in if is_too_long l then [] else l ∷ rest

unfoldable pub scan_fails : List String → Bool
scan_fails [] = false
scan_fails (l ∷ ls) = is_too_long l || scan_fails ls

-- The package's bundle, and whether `bundleErr` is set.
abbrev pub Loaded : Type 0
Loaded = Bundle × Bool

-- Without data there is no message.
unfoldable pub load : Option String → Loaded
load none = ([], false)
load (some text) = (add_lines (scanned (lines_of text)) [], scan_fails (lines_of text))

-- `bundleSyncOnce`: only the first call of the process reads its data.
unfoldable pub new_properties_bundle : Option Loaded → Option String → Loaded
new_properties_bundle none data_text = load data_text
new_properties_bundle (some loaded) data_text = loaded
