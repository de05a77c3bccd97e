-- ===== src/Prelude/Texts.antt =====
-- The parts of Rust's `str` that parsing uses.
use Prim.Native.Nat.{ℕ, ◌+◌, ◌-◌, ◌*◌, ◌<◌}
use Prim.Native.Char.{Char, char, code, IsScalar}
use Prim.Native.String.{String}
use mathlib.Core.Path.{◌≡◌, refl}
use mathlib.Core.Bool.{Bool, true, false, ◌&&◌}
use mathlib.Core.Option.{Option, none, some}
use mathlib.Core.List.{List, [], ◌∷◌}
use native.Mathlib.Omega.{arith}
use kiln_print.Prelude.Tests.{if◌then◌else◌, leb, ◌==◌}

small-IsScalar : (n : ℕ) → n < 55296 → IsScalar n
small-IsScalar n h = ground (arith, h)

abbrev is_upper : ℕ → Bool
is_upper n = leb 65 n && leb n 90

abbrev is_lower : ℕ → Bool
is_lower n = leb 97 n && leb n 122

abbrev lower_of : (n : ℕ) → IsScalar n → (b : Bool) → is_upper n ≡ b → Char
lower_of n h true t = char (n + 32) (small-IsScalar (n + 32) (ground (arith, t)))
lower_of n h false f = char n h

abbrev upper_of : (n : ℕ) → IsScalar n → (b : Bool) → is_lower n ≡ b → Char
upper_of n h true t = char (n - 32) (small-IsScalar (n - 32) (ground (arith, t)))
upper_of n h false f = char n h

-- `to_ascii_lowercase` and `to_ascii_uppercase` of `char` and of `str`.
unfoldable pub lower_char : Char → Char
unfolding small-IsScalar
lower_char (char n h) = lower_of n h (is_upper n) refl

unfoldable pub upper_char : Char → Char
unfolding small-IsScalar
upper_char (char n h) = upper_of n h (is_lower n) refl

unfoldable pub map_chars : (Char → Char) → String → String
map_chars f String.[] = String.[]
map_chars f (String.◌∷◌ c s) = String.◌∷◌ (f c) (map_chars f s)

unfoldable pub to_ascii_lowercase : String → String
unfolding map_chars lower_char
to_ascii_lowercase s = map_chars lower_char s

unfoldable pub to_ascii_uppercase : String → String
unfolding map_chars upper_char
to_ascii_uppercase s = map_chars upper_char s

-- `str::split` and `split_once` at a character.
abbrev pub cons_first : Char → List String → List String
cons_first c [] = String.◌∷◌ c String.[] ∷ []
cons_first c (s ∷ ss) = String.◌∷◌ c s ∷ ss

unfoldable pub split : ℕ → String → List String
split sep String.[] = String.[] ∷ []
split sep (String.◌∷◌ c s) =
    let rest = split sep s in if code c == sep then String.[] ∷ rest else cons_first c rest

abbrev pub cons_left : Char → Option (String × String) → Option (String × String)
cons_left c none = none
cons_left c (some (a, b)) = some (String.◌∷◌ c a, b)

unfoldable pub split_once : ℕ → String → Option (String × String)
split_once sep String.[] = none
split_once sep (String.◌∷◌ c s) =
    let rest = split_once sep s in if code c == sep then some (String.[], s) else cons_left c rest

unfoldable pub append : String → String → String
append String.[] t = t
append (String.◌∷◌ c s) t = String.◌∷◌ c (append s t)

unfoldable pub strip_prefix : String → String → Option String
strip_prefix String.[] s = some s
strip_prefix (String.◌∷◌ p ps) String.[] = none
strip_prefix (String.◌∷◌ p ps) (String.◌∷◌ c s) =
    let rest = strip_prefix ps s in if code p == code c then rest else none

-- `split_once` at a text.

unfoldable pub split_at_text : String → String → Option (String × String)
unfolding strip_prefix
split_at_text sep String.[] = elim (strip_prefix sep String.[]) [
  | none ↦ none
  | some rest ↦ some (String.[], rest)
]
split_at_text sep (String.◌∷◌ c s) =
    let later = cons_left c (split_at_text sep s) in
    elim (strip_prefix sep (String.◌∷◌ c s)) [ none ↦ later | some rest ↦ some (String.[], rest) ]

-- `rsplit_once` at a character: at its last occurrence.
abbrev last_split : Bool → Char → String → Option (String × String) → Option (String × String)
last_split here c s (some (a, b)) = some (String.◌∷◌ c a, b)
last_split here c s none = if here then some (String.[], s) else none

unfoldable pub rsplit_once : ℕ → String → Option (String × String)
rsplit_once sep String.[] = none
rsplit_once sep (String.◌∷◌ c s) = last_split (code c == sep) c s (rsplit_once sep s)

-- `trim_end_matches` of a character.
abbrev cons_unless : Bool → Char → String → String
cons_unless here c String.[] = if here then String.[] else String.◌∷◌ c String.[]
cons_unless here c (String.◌∷◌ d s) = String.◌∷◌ c (String.◌∷◌ d s)

unfoldable pub trim_end_matches : ℕ → String → String
trim_end_matches m String.[] = String.[]
trim_end_matches m (String.◌∷◌ c s) = cons_unless (code c == m) c (trim_end_matches m s)

-- `parse` of an unsigned integer of at most `bound`: an optional `+`, then digits.
unfoldable pub parse_digits : ℕ → ℕ → String → Option ℕ
parse_digits bound n String.[] = some n
parse_digits bound n (String.◌∷◌ c s) =
    let m = n * 10 + (code c - 48) in
    let rest = parse_digits bound m s in
    if leb 48 (code c) && leb (code c) 57 && leb m bound then rest else none

unfoldable pub parse_uint : ℕ → String → Option ℕ
unfolding parse_digits
parse_uint bound String.[] = none
parse_uint bound (String.◌∷◌ c String.[]) = parse_digits bound 0 (String.◌∷◌ c String.[])
parse_uint bound (String.◌∷◌ c (String.◌∷◌ d s)) =
    if code c == 43
    then parse_digits bound 0 (String.◌∷◌ d s)
    else parse_digits bound 0 (String.◌∷◌ c (String.◌∷◌ d s))

-- `split` at the characters that pass a test, and `contains` of a text.
unfoldable pub split_where : (ℕ → Bool) → String → List String
split_where p String.[] = String.[] ∷ []
split_where p (String.◌∷◌ c s) =
    let rest = split_where p s in if p (code c) then String.[] ∷ rest else cons_first c rest

abbrev is_found : Option String → Bool → Bool
is_found none later = later
is_found (some rest) later = true

unfoldable pub contains_text : String → String → Bool
unfolding strip_prefix
contains_text needle String.[] = is_found (strip_prefix needle String.[]) false
contains_text needle (String.◌∷◌ c s) =
    is_found (strip_prefix needle (String.◌∷◌ c s)) (contains_text needle s)

unfoldable pub starts_with : String → String → Bool
unfolding strip_prefix
starts_with needle s = is_found (strip_prefix needle s) false
