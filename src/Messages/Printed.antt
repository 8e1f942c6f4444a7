-- ===== src/Messages/Printed.antt =====
-- What newPropertiesBundle of i18n/message_loader.go makes of a file of entries.
use Prim.Native.Char.{Char, code}
use Prim.Native.String.{◌++◌ as append}
use text.Mathlib.TextLemmas.{nil-append, cons-append, cons-ne-nil}
use arke.Common.{
  ℕ, ◌≡◌, refl, ap, ◌∙◌, arith, String, Bool, true, false, ◌&&◌, ◌||◌, not, Option, none, some,
  List, [], ◌∷◌, map, Bool-cases, inl, inr, str_eq, eq_iff, ◌==◌, if◌then◌else◌, All,
}
use arke.Common.Space.{is_space, cons_unless_space, trim_left, trim_right, trim_space}
use arke.ConcurrentMap.{lookup, insert, lookup-insert}
use arke.Messages.Defs.{
  to_first_line, lines_of, to_key, split_equals, is_comment, Bundle, add_entry, add_trimmed,
  add_lines, is_too_long, scanned, scan_fails, load, new_properties_bundle,
}

-- The text without a character of that code.
abbrev pub lacks : ℕ → String → Bool
lacks n String.[] = true
lacks n (String.◌∷◌ c s) = not (code c == n) && lacks n s

-- One text, a character and another text.
abbrev pub with_char : String → Char → String → String
with_char s c t = append s (String.◌∷◌ c t)

with_char-cons :
    (d : Char) (s : String) (c : Char) (t : String)
    → with_char (String.◌∷◌ d s) c t ≡ String.◌∷◌ d (with_char s c t)
with_char-cons d s c t = cons-append d s (String.◌∷◌ c t)

lines_of-line :
    (l rest : String) → lacks b'\n' l ≡ true → lines_of (with_char l "\n" rest) ≡ l ∷ lines_of rest
unfolding lines_of to_first_line
lines_of-line String.[] rest h = rw nil-append refl
lines_of-line (String.◌∷◌ c l) rest h = rw with_char-cons (ground (arith, h, lines_of-line l rest))

split_equals-entry :
    (k v : String) → lacks b'=' k ≡ true → split_equals (with_char k "=" v) ≡ some (k, v)
unfolding split_equals to_key
split_equals-entry String.[] v h = rw nil-append refl
split_equals-entry (String.◌∷◌ c k) v h =
    rw with_char-cons (ground (arith, h, split_equals-entry k v))

trim_left-entry : (k v : String) → trim_left (with_char k "=" v) ≡ with_char (trim_left k) "=" v
unfolding trim_left is_space
trim_left-entry String.[] v = rw nil-append refl
trim_left-entry (String.◌∷◌ c k) v =
    rw with_char-cons (ground (arith, trim_left-entry k v, with_char-cons c k "=" v))

lacks-trim_left : (n : ℕ) (k : String) → lacks n k ≡ true → lacks n (trim_left k) ≡ true
unfolding trim_left
lacks-trim_left n String.[] h = refl
lacks-trim_left n (String.◌∷◌ c k) h = ground (arith, h, lacks-trim_left n k)

cons_kept : (c : Char) (s : String) → is_space c ≡ false → cons_unless_space c s ≡ String.◌∷◌ c s
unfolding cons_unless_space
cons_kept c String.[] h = ground (arith, h)
cons_kept c (String.◌∷◌ d s) h = refl

cons_before :
    (c : Char) (k : String) (d : Char) (w : String)
    → cons_unless_space c (with_char k d w) ≡ String.◌∷◌ c (with_char k d w)
unfolding cons_unless_space
cons_before c String.[] d w = rw nil-append refl
cons_before c (String.◌∷◌ e k) d w = rw with_char-cons refl

trim_right-entry : (k v : String) → trim_right (with_char k "=" v) ≡ with_char k "=" (trim_right v)
unfolding trim_right is_space
trim_right-entry String.[] v = rw (nil-append, nil-append) (cons_kept "=" (trim_right v) refl)
trim_right-entry (String.◌∷◌ c k) v =
    rw (with_char-cons, with_char-cons)
      (ap (cons_unless_space c) (trim_right-entry k v) ∙ cons_before c k "=" (trim_right v))

trim_left_twice : (s : String) → trim_left (trim_left s) ≡ trim_left s
unfolding trim_left
trim_left_twice String.[] = refl
trim_left_twice (String.◌∷◌ c s) = ground (arith, trim_left_twice s)

cons_unless_space_twice :
    (c : Char) (s : String)
    → trim_right s ≡ s
    → trim_right (cons_unless_space c s) ≡ cons_unless_space c s
unfolding trim_right cons_unless_space
cons_unless_space_twice c String.[] h = go (is_space c) refl
  where
    go :
        (b : Bool)
        → is_space c ≡ b
        → trim_right (if b then String.[] else String.◌∷◌ c String.[])
          ≡ (if b then String.[] else String.◌∷◌ c String.[])
    go true e = refl
    go false e = ground (arith, e)
cons_unless_space_twice c (String.◌∷◌ d s) h = ap (cons_unless_space c) h

trim_right_twice : (s : String) → trim_right (trim_right s) ≡ trim_right s
unfolding trim_right
trim_right_twice String.[] = refl
trim_right_twice (String.◌∷◌ c s) = cons_unless_space_twice c (trim_right s) (trim_right_twice s)

space_dropped :
    (c : Char) (r : String) → is_space c ≡ true → trim_left (cons_unless_space c r) ≡ trim_left r
unfolding trim_left cons_unless_space
space_dropped c String.[] h =
    ap (λ b. trim_left (if b then String.[] else String.◌∷◌ c String.[])) h
space_dropped c (String.◌∷◌ d r) h = ground (arith, h)

letter_kept :
    (c : Char) (r : String)
    → is_space c ≡ false
    → trim_left (cons_unless_space c r) ≡ cons_unless_space c r
unfolding trim_left
letter_kept c r h = ground (arith, h, cons_kept c r h)

-- Trimming the right of a text does not bring back white space on its left.
trim_left-trim_right : (s : String) → trim_left (trim_right s) ≡ trim_right (trim_left s)
unfolding trim_left trim_right
trim_left-trim_right String.[] = refl
trim_left-trim_right (String.◌∷◌ c s) = go (is_space c) refl (trim_left-trim_right s)
  where
    go :
        (b : Bool)
        → is_space c ≡ b
        → trim_left (trim_right s) ≡ trim_right (trim_left s)
        → trim_left (cons_unless_space c (trim_right s))
          ≡ trim_right (if b then trim_left s else String.◌∷◌ c s)
    go true e same = space_dropped c (trim_right s) e ∙ same
    go false e same = letter_kept c (trim_right s) e

trim_space-trim_left : (k : String) → trim_space (trim_left k) ≡ trim_space k
unfolding trim_space
trim_space-trim_left k = ap trim_right (trim_left_twice k)

trim_space-trim_right : (v : String) → trim_space (trim_right v) ≡ trim_space v
unfolding trim_space
trim_space-trim_right v = ap trim_right (trim_left-trim_right v) ∙ trim_right_twice (trim_left v)

-- A trimmed line that holds an entry.
trim_space-entry :
    (k v : String) → trim_space (with_char k "=" v) ≡ with_char (trim_left k) "=" (trim_right v)
unfolding trim_space
trim_space-entry k v = ap trim_right (trim_left-entry k v) ∙ trim_right-entry (trim_left k) v

-- An entry as a line of the file: its key has neither an equals sign nor a newline and is no comment, and
-- its value has no newline.
abbrev pub Printable : String × String → Type 0
Printable (k, v) =
    (lacks b'=' k ≡ true)
    × (lacks b'\n' k ≡ true)
    × (lacks b'\n' v ≡ true)
    × (is_comment (trim_left k) ≡ false)

-- A file with one line for each entry.
abbrev pub printed : List (String × String) → String
printed [] = String.[]
printed ((k, v) ∷ l) = with_char (with_char k "=" v) "\n" (printed l)

-- The value of the last entry with that key, trimmed.
abbrev pub last_value : String → List (String × String) → Option String
last_value id [] = none
last_value id ((k, v) ∷ l) = elim (last_value id l) [
  | some x ↦ some x
  | none ↦ if str_eq (trim_space k) id then some (trim_space v) else none
]

not_empty : (d : Char) (s : String) → str_eq (String.◌∷◌ d s) "" ≡ false
not_empty d s = ground (arith, eq_iff (String.◌∷◌ d s) "", cons-ne-nil d s)

not_skipped :
    (k w : String)
    → is_comment k ≡ false
    → (str_eq (with_char k "=" w) "" || is_comment (with_char k "=" w)) ≡ false
unfolding is_comment
not_skipped String.[] w h = rw nil-append (ground (arith, not_empty "=" w))
not_skipped (String.◌∷◌ d k) w h =
    rw with_char-cons (ground (arith, h, not_empty d (with_char k "=" w)))

plain_line :
    (k w : String) (m : Bundle)
    → lacks b'=' k ≡ true
    → is_comment k ≡ false
    → add_trimmed (with_char k "=" w) m ≡ insert (trim_space k) (trim_space w) m
unfolding add_trimmed add_entry
plain_line k w m e c =
    ap (λ b. if b then m else add_entry (split_equals (with_char k "=" w)) m) (not_skipped k w c)
    ∙ ap (λ o. add_entry o m) (split_equals-entry k w e)

entry_line :
    (k v : String) (m : Bundle)
    → Printable (k, v)
    → add_trimmed (trim_space (with_char k "=" v)) m ≡ insert (trim_space k) (trim_space v) m
entry_line k v m (e, n, _, c) =
    ap (λ l. add_trimmed l m) (trim_space-entry k v)
    ∙ (plain_line (trim_left k) (trim_right v) m (lacks-trim_left b'=' k e) c
        ∙ ap (λ x. insert x (trim_space (trim_right v)) m) (trim_space-trim_left k)
        ∙ ap (λ x. insert (trim_space k) x m) (trim_space-trim_right v))

lacks-with_char :
    (n : ℕ) (k : String) (c : Char) (v : String)
    → lacks n k ≡ true
    → code c == n ≡ false
    → lacks n v ≡ true
    → lacks n (with_char k c v) ≡ true
lacks-with_char n String.[] c v h e g = rw nil-append (ground (arith, e, g))
lacks-with_char n (String.◌∷◌ d k) c v h e g =
    rw with_char-cons (ground (arith, h, e, g, lacks-with_char n k c v))

-- The entries one after another.
abbrev insert_all : List (String × String) → Bundle → Bundle
insert_all [] m = m
insert_all ((k, v) ∷ l) m = insert_all l (insert (trim_space k) (trim_space v) m)

-- The line of an entry.
abbrev pub line_of : String × String → String
line_of (k, v) = with_char k "=" v

-- The entries before the first whose line is too long for the scanner.
abbrev pub before_long : List (String × String) → List (String × String)
before_long [] = []
before_long (e ∷ l) = if is_too_long (line_of e) then [] else e ∷ before_long l

abbrev pub any_long : List (String × String) → Bool
any_long [] = false
any_long (e ∷ l) = is_too_long (line_of e) || any_long l

lines_of-printed :
    (l : List (String × String)) → All Printable l → lines_of (printed l) ≡ map line_of l
unfolding lines_of
lines_of-printed [] h = refl
lines_of-printed ((k, v) ∷ l) ((e, n, w, c), hs) =
    lines_of-line (with_char k "=" v) (printed l) (lacks-with_char b'\n' k "=" v n refl w)
    ∙ ap (λ ls. with_char k "=" v ∷ ls) (lines_of-printed l hs)

add_lines-scanned :
    (l : List (String × String)) (m : Bundle)
    → All Printable l
    → add_lines (scanned (map line_of l)) m ≡ insert_all (before_long l) m
unfolding add_lines scanned
add_lines-scanned [] m h = refl
add_lines-scanned ((k, v) ∷ l) m (p, hs) = elim (Bool-cases (is_too_long (line_of (k, v)))) [
  | inl long ↦ ground (arith, long)
  | inr short ↦ rw short (
      ap (λ x. add_lines (scanned (map line_of l)) x) (entry_line k v m p)
      ∙ add_lines-scanned l (insert (trim_space k) (trim_space v) m) hs)
]

scan_fails-any_long : (l : List (String × String)) → scan_fails (map line_of l) ≡ any_long l
unfolding scan_fails
scan_fails-any_long [] = refl
scan_fails-any_long (e ∷ l) = ap (λ t. is_too_long (line_of e) || t) (scan_fails-any_long l)

-- The value of the last entry, or what was there before.
or_before : String → List (String × String) → Bundle → Option String
or_before id l m = elim (last_value id l) [ some x ↦ some x | none ↦ lookup id m ]

lookup-insert_all :
    (id : String) (l : List (String × String)) (m : Bundle)
    → lookup id (insert_all l m) ≡ or_before id l m
unfolding or_before
lookup-insert_all id [] m = refl
lookup-insert_all id ((k, v) ∷ l) m =
    lookup-insert_all id l (insert (trim_space k) (trim_space v) m)
    ∙ ground (arith, lookup-insert (trim_space k) id (trim_space v) m)

-- Of a file with one line key=value for each entry, the first call of newPropertiesBundle makes a bundle
-- in which each key has the value of the last entry with that key, where white space around keys and
-- values does not count. Only the entries count before the first whose line has 64 KB or more; there is
-- an error exactly if there is such a line. The keys have no equals sign or newline and do not begin with
-- a number sign, apart from white space, and the values have no newline.
pub new_properties_bundle-printed :
    (l : List (String × String)) (id : String)
    → All Printable l
    → let (messages, failed) = new_properties_bundle none (some (printed l)) in
      (lookup id messages ≡ last_value id (before_long l)) × (failed ≡ any_long l)
unfolding new_properties_bundle load or_before
new_properties_bundle-printed l id h = (
  ap (λ ls. lookup id (add_lines (scanned ls) [])) (lines_of-printed l h)
      ∙ ap (lookup id) (add_lines-scanned l [] h)
      ∙ lookup-insert_all id (before_long l) []
      ∙ ground arith,
  ap scan_fails (lines_of-printed l h) ∙ scan_fails-any_long l,
)
