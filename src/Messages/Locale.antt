-- ===== src/Messages/Locale.antt =====
-- Which catalogue is read and how a message is made of it: i18n/oslocale.go, oslocale_unix.go and T, L10n
-- and getLocaleFileNames of message_loader.go. Parsing a language tag and reading an embedded file are
-- parameters.
use Prim.Native.Char.{code}
use Prim.Native.String.{◌++◌ as append, len}
use arke.Common.{
  ℕ, zero, suc, ◌-◌, ◌≡◌, refl, String, Bool, true, false, ◌&&◌, ◌||◌, Option, none, some, List, [],
  ◌∷◌, str_eq, ◌==◌, if◌then◌else◌,
}
use arke.Common.Int.{pos}
use arke.Common.Text.{itoa}
use arke.ConcurrentMap.{lookup}
use arke.Messages.Defs.{Bundle}

-- `strings.Split(s, c)[0]` and, if there is one, `strings.Split(s, c)[1]`.
unfoldable pub piece : ℕ → String → String
piece c String.[] = String.[]
piece c (String.◌∷◌ d s) =
    let rest = piece c s in if code d == c then String.[] else String.◌∷◌ d rest

after : ℕ → String → Option String
after c String.[] = none
after c (String.◌∷◌ d s) = let rest = after c s in if code d == c then some s else rest

underscores : String → String
underscores String.[] = String.[]
underscores (String.◌∷◌ c s) = String.◌∷◌ (if code c == b'-' then "_" else c) (underscores s)

unfoldable pub split_locale : String → String × String
unfolding after underscores
split_locale locale =
    let formatted = underscores (piece b'.' locale) in
    (piece b'_' formatted, elim (after b'_' formatted) [ none ↦ "" | some s ↦ piece b'_' s ])

-- The values of LC_ALL and LANG, and whether a text is a language tag.
unfoldable pub detect_ietf : String → String → (String → Bool) → String
detect_ietf lc_all lang valid =
    let locale = if str_eq lc_all "" then lang else lc_all in
    if str_eq locale ""
    then ""
    else (let (language, territory) = split_locale locale in
        let tag =
          if str_eq territory "" then language else append language (append "-" territory) in
        if valid tag then tag else "")

split_locale_examples :
    (split_locale "fr_CA.UTF-8" ≡ ("fr", "CA"))
    × (split_locale "de" ≡ ("de", ""))
    × (split_locale "zh-TW" ≡ ("zh", "TW"))
unfolding split_locale piece
split_locale_examples = (refl, refl, refl)

pub record Tag : Type 0 where
  pub language : String
  pub script : String
  pub region : String

file_name : String → String → String
file_name prefix suffix = append "resources/" (append prefix (append suffix ".properties"))

chinese_files : String → Tag → List String
unfolding file_name
chinese_files prefix t =
    if str_eq t.script "Hans"
      || (str_eq t.region "SG" || (str_eq t.script "" && str_eq t.region ""))
    then file_name prefix "_zh-Hans" ∷ file_name prefix "" ∷ []
    else if str_eq t.script "Hant"
        || (str_eq t.region "TW" || (str_eq t.region "HK" || str_eq t.region "MO"))
    then file_name prefix "_zh-Hant" ∷ file_name prefix "" ∷ []
    else file_name prefix "" ∷ []

-- A locale that is no tag counts as English.
unfoldable pub get_locale_file_names : (String → Option Tag) → Tag → String → String → List String
unfolding file_name chinese_files
get_locale_file_names parse english prefix locale =
    let t : Tag = elim (parse locale) [ none ↦ english | some t ↦ t ] in
    if str_eq t.language "zh"
    then chinese_files prefix t
    else file_name prefix (append "_" (append t.language (append "_" t.region)))
      ∷ file_name prefix (append "_" t.language)
      ∷ file_name prefix ""
      ∷ []

-- The first file that can be read; no data if there is none.
unfoldable pub l10n : (String → Option String) → List String → String
l10n read [] = ""
l10n read (p ∷ ps) =
    let later = l10n read ps in elim (read p) [ some contents ↦ contents | none ↦ later ]

is_prefix : String → String → Bool
is_prefix String.[] s = true
is_prefix (String.◌∷◌ c t) String.[] = false
is_prefix (String.◌∷◌ c t) (String.◌∷◌ d s) = code c == code d && is_prefix t s

-- `strings.ReplaceAll(s, t, u)` for a text t of 1 + n characters, the first k characters of s being part of
-- an occurrence that has been replaced.
unfoldable pub replace_from : ℕ → String → String → ℕ → String → String
unfolding is_prefix
replace_from n t u k String.[] = String.[]
replace_from n t u (suc k) (String.◌∷◌ c s) = replace_from n t u k s
replace_from n t u zero (String.◌∷◌ c s) =
    let replaced = append u (replace_from n t u n s) in
    let kept = String.◌∷◌ c (replace_from n t u zero s) in
    if is_prefix t (String.◌∷◌ c s) then replaced else kept

placeholder : ℕ → String
placeholder i = append "{" (append (itoa (pos i)) "}")

unfoldable pub substitute : ℕ → List String → String → String
unfolding placeholder
substitute i [] msg = msg
substitute i (arg ∷ args) msg =
    let hole = placeholder i in
    substitute (suc i) args (replace_from (len hole - 1) hole arg zero msg)

-- T, of arguments that are formatted. An id without a message stands for itself.
unfoldable pub translate : Bundle → String → List String → String
translate bundle id args =
    let msg : String = elim (lookup id bundle) [ some m ↦ m | none ↦ id ] in substitute 0 args msg

-- An argument that looks like a later placeholder is substituted again.
translate_examples :
    (translate (("greet", "{0} and {1}") ∷ []) "greet" ("a" ∷ "b" ∷ []) ≡ "a and b")
    × (translate [] "no {0}" ("way" ∷ []) ≡ "no way")
    × (translate (("greet", "{0} and {1}") ∷ []) "greet" ("{1}" ∷ "b" ∷ []) ≡ "b and b")
unfolding translate substitute replace_from itoa
translate_examples = (refl, refl, refl)
