-- ===== src/Prelude/Text.antt =====
-- Python's `str` methods that the program uses, by recursion on the characters of a text.
use Prim.Native.Char.{Char, code}
use Prim.Native.Nat.{ℕ, suc, zero, ◌+◌, ◌*◌, ◌-◌}
use Prim.Native.String.{String, [], ◌∷◌}
use mathlib.Core.Bool.{Bool, false, not, true, ◌&&◌, ◌||◌}
use mathlib.Core.Option.{Option, none, some}
use text.Mathlib.Text.{◌==◌}
use patchhub.Prelude.Tests.{eqb, if◌then◌else◌, leb}

-- `str.isspace` of one character.
unfoldable pub is_space : Char → Bool
is_space ch =
    let c = code ch in
    (leb 9 c && leb c 13)
    || (leb 28 c && leb c 32)
    || eqb c 0x85
    || eqb c 0xa0
    || eqb c 0x1680
    || (leb 0x2000 c && leb c 0x200a)
    || eqb c 0x2028
    || eqb c 0x2029
    || eqb c 0x202f
    || eqb c 0x205f
    || eqb c 0x3000

unfoldable pub is_char : Char → Char → Bool
is_char a b = eqb (code a) (code b)

-- `if not s` of a text.
unfoldable pub is_empty : String → Bool
is_empty [] = true
is_empty (c ∷ s) = false

unfoldable pub lstrip_if : (Char → Bool) → String → String
lstrip_if p [] = []
lstrip_if p (c ∷ s) = let rest = lstrip_if p s in if p c then rest else c ∷ s

unfoldable pub rstrip_if : (Char → Bool) → String → String
unfolding is_empty
rstrip_if p [] = []
rstrip_if p (c ∷ s) = let rest = rstrip_if p s in if p c && is_empty rest then [] else c ∷ rest

unfoldable pub strip_if : (Char → Bool) → String → String
unfolding lstrip_if rstrip_if
strip_if p s = rstrip_if p (lstrip_if p s)

-- `s.strip()`
unfoldable pub strip : String → String
unfolding strip_if is_space
strip s = strip_if is_space s

-- `s.startswith(prefix)`, the prefix first.
unfoldable pub has_prefix : String → String → Bool
unfolding is_char
has_prefix [] s = true
has_prefix (c ∷ p) [] = false
has_prefix (c ∷ p) (d ∷ s) = is_char c d && has_prefix p s

-- `s.endswith(suffix)`, the suffix first.
unfoldable pub has_suffix : String → String → Bool
has_suffix suffix [] = suffix == ""
has_suffix suffix (c ∷ s) = (c ∷ s) == suffix || has_suffix suffix s

-- `part in s`
unfoldable pub has_part : String → String → Bool
unfolding has_prefix
has_part part [] = part == ""
has_part part (c ∷ s) = has_prefix part (c ∷ s) || has_part part s

-- `s.replace(a, b)` at single characters.
unfoldable pub replace_char : Char → Char → String → String
unfolding is_char
replace_char a b [] = []
replace_char a b (c ∷ s) = (if is_char c a then b else c) ∷ replace_char a b s

-- `s.lower()` of ASCII text.
unfoldable pub lower_char : String → String → Char → Char
unfolding is_char
lower_char (u ∷ us) (l ∷ ls) c = let rest = lower_char us ls c in if is_char u c then l else rest
lower_char _ _ c = c

unfoldable pub lower : String → String
unfolding lower_char
lower [] = []
lower (c ∷ s) = lower_char "ABCDEFGHIJKLMNOPQRSTUVWXYZ" "abcdefghijklmnopqrstuvwxyz" c ∷ lower s

-- `s.upper()` of ASCII text.
unfoldable pub upper : String → String
unfolding lower_char
upper [] = []
upper (c ∷ s) = lower_char "abcdefghijklmnopqrstuvwxyz" "ABCDEFGHIJKLMNOPQRSTUVWXYZ" c ∷ upper s

-- `s.split(sep, 1)` at one character, or `none` where the text lacks it.
abbrev put_left : Char → Option (String × String) → Option (String × String)
put_left c none = none
put_left c (some (left, right)) = some (c ∷ left, right)

unfoldable pub split_once : Char → String → Option (String × String)
unfolding is_char
split_once sep [] = none
split_once sep (c ∷ s) =
    let rest = split_once sep s in if is_char c sep then some ([], s) else put_left c rest

-- `s.isdigit()` of ASCII text: every character a digit, and one at least.
unfoldable pub all_digits : String → Bool
all_digits [] = true
all_digits (c ∷ s) = leb 48 (code c) && leb (code c) 57 && all_digits s

unfoldable pub is_digits : String → Bool
unfolding all_digits is_empty
is_digits s = not (is_empty s) && all_digits s

-- `s.removeprefix(prefix)`, the prefix first.
unfoldable pub drop_chars : String → String → String
drop_chars [] s = s
drop_chars (c ∷ p) [] = []
drop_chars (c ∷ p) (d ∷ s) = drop_chars p s

unfoldable pub drop_prefix : String → String → String
unfolding has_prefix drop_chars
drop_prefix p s = if has_prefix p s then drop_chars p s else s

-- `s[:n]`, `s[n:]` and `len(s) >= n`.
unfoldable pub take_chars : ℕ → String → String
take_chars zero s = []
take_chars (suc n) [] = []
take_chars (suc n) (c ∷ s) = c ∷ take_chars n s

unfoldable pub drop_count : ℕ → String → String
drop_count zero s = s
drop_count (suc n) [] = []
drop_count (suc n) (c ∷ s) = drop_count n s

unfoldable pub has_count : ℕ → String → Bool
has_count zero s = true
has_count (suc n) [] = false
has_count (suc n) (c ∷ s) = has_count n s

-- `s.split(sep, 1)` at a text, or `none` where the text lacks it.
unfoldable pub split_at : String → String → Option (String × String)
unfolding drop_chars has_prefix
split_at sep [] = if is_empty sep then some ([], []) else none
split_at sep (c ∷ s) =
    let rest = split_at sep s in
    if has_prefix sep (c ∷ s) then some ([], drop_chars sep (c ∷ s)) else put_left c rest

-- `len(s)`, and `s[:-n]`.
unfoldable pub text_length : String → ℕ
text_length [] = 0
text_length (c ∷ s) = suc (text_length s)

unfoldable pub drop_end : ℕ → String → String
unfolding has_count
drop_end n [] = []
drop_end n (c ∷ s) = let rest = drop_end n s in if has_count n s then c ∷ rest else []

-- `PurePath(s).name` of a path that does not end in a slash.
unfoldable pub last_part : String → String
unfolding is_char
last_part [] = []
last_part (c ∷ s) = if has_part "/" (c ∷ s) then last_part s else c ∷ s

-- A text taken apart from its last character on, and a character put in front.
unfoldable pub fold_text {ℓ} : {A : Type ℓ} → (Char → A → A) → A → String → A
fold_text f a [] = a
fold_text f a (c ∷ s) = f c (fold_text f a s)

unfoldable pub put_char : Char → String → String
put_char c s = c ∷ s

-- `s.replace(a + a, b)` at single characters. The flag says that an `a` waits for the next.
unfoldable pub replace_pairs : Char → Char → Bool → String → String
unfolding is_char
replace_pairs a b waits [] = if waits then a ∷ [] else []
replace_pairs a b waits (c ∷ s) =
    let rest = replace_pairs a b (not waits && is_char c a) s in
    if is_char c a
    then (if waits then b ∷ rest else rest)
    else if waits
    then a ∷ (c ∷ rest)
    else c ∷ rest

-- `int(s)` of decimal digits, after those that are read.
unfoldable pub digits_value : ℕ → String → ℕ
digits_value n [] = n
digits_value n (c ∷ s) = digits_value (10 * n + (code c - 48)) s
