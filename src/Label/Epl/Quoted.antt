-- ===== src/Label/Epl/Quoted.antt =====
-- A quoted text of an EPL label ends where the encoder ends it (`quoted` of
-- protocols/src/label/epl.rs).
use Prim.Native.Char.{Char, code}
use kiln_print.Prelude.{
  ℕ, ◌≡◌, refl, sym, ap, ◌∙◌, String, Bool, ◌&&◌, ◌||◌, ltb, leb, arith, map, true, false, Option,
  none, some, List, [], ◌∷◌, ◌==◌, ==_iff, if◌then◌else◌, Bool-cases, inl, inr, append, codes,
}
use kiln_print.Engine.Submit.Checks.{all_chars}
use kiln_print.Label.Barcode.{single_line}
use kiln_print.Label.Epl.{replace_char, quoted}

abbrev cons_code : ℕ → Option (List ℕ × String) → Option (List ℕ × String)
cons_code c none = none
cons_code c (some (read, rest)) = some (c ∷ read, rest)

-- How a printer reads a quoted text: a backslash stands before a character that is taken as it is,
-- and a quote ends the text. What was read, and what follows.
unfoldable pub read_quoted : String → Option (List ℕ × String)
read_quoted String.[] = none
read_quoted (String.◌∷◌ c String.[]) = if code c == b'"' then some ([], String.[]) else none
read_quoted (String.◌∷◌ c (String.◌∷◌ d s)) = elim (code c == b'"') [
  | true ↦ some ([], String.◌∷◌ d s)
  | false ↦ elim (code c == b'\\') [
    | true ↦ cons_code (code d) (read_quoted s)
    | false ↦ cons_code (code c) (read_quoted (String.◌∷◌ d s))
  ]
]

abbrev protected : String → String
protected s = replace_char b'"' "\\\"" (replace_char b'\\' "\\\\" s)

abbrev closed : String → String → String
closed s rest = append s (String.◌∷◌ "\"" rest)

read-plain :
    (c : Char) (s : String)
    → (code c == b'"') ≡ false
    → (code c == b'\\') ≡ false
    → read_quoted (String.◌∷◌ c s) ≡ cons_code (code c) (read_quoted s)
unfolding read_quoted
read-plain c String.[] f g = rw (f, read_quoted) refl
read-plain c (String.◌∷◌ d s) f g = rw (f, g, read_quoted) refl

read-end : (rest : String) → read_quoted (String.◌∷◌ "\"" rest) ≡ some ([], rest)
unfolding read_quoted
read-end String.[] = refl
read-end (String.◌∷◌ d s) = refl

read-escaped :
    (d : Char) (s : String)
    → read_quoted (String.◌∷◌ "\\" (String.◌∷◌ d s)) ≡ cons_code (code d) (read_quoted s)
unfolding read_quoted
read-escaped d s = refl

read-protected : (s rest : String) → read_quoted (closed (protected s) rest) ≡ some (codes s, rest)
unfolding replace_char append
read-protected String.[] rest = read-end rest
read-protected (String.◌∷◌ c s) rest = elim (Bool-cases (code c == b'\\')) [
  | inl t ↦
      rw (t, replace_char)
        (read-escaped "\\" (closed (protected s) rest)
          ∙ ap (cons_code b'\\') (read-protected s rest)
          ∙ ap (λ (n : ℕ). some (n ∷ codes s, rest)) (sym ((==_iff (code c) b'\\').0 t)))
  | inr f ↦ elim (Bool-cases (code c == b'"')) [
    | inl t ↦
        rw (f, t, replace_char)
          (read-escaped "\"" (closed (protected s) rest)
            ∙ ap (cons_code b'"') (read-protected s rest)
            ∙ ap (λ (n : ℕ). some (n ∷ codes s, rest)) (sym ((==_iff (code c) b'"').0 t)))
    | inr g ↦
        rw (f, g, replace_char)
          (read-plain c (closed (protected s) rest) g f
            ∙ ap (cons_code (code c)) (read-protected s rest))
  ]
]

-- A character that can stand within a line: none of the control characters, line ends included.
abbrev pub is_on_line : ℕ → Bool
is_on_line c = leb 32 c && (ltb c 127 || ltb 159 c)

-- A control character is printed as a space.
abbrev pub on_line : ℕ → ℕ
on_line c = if is_on_line c then c else 32

codes-single_line : (s : String) → codes (single_line s) ≡ map on_line (codes s)
unfolding single_line append
codes-single_line String.[] = refl
codes-single_line (String.◌∷◌ c s) = ground (arith, codes-single_line s)

single_line-on_line : (s : String) → all_chars is_on_line (single_line s) ≡ true
unfolding single_line append
single_line-on_line String.[] = refl
single_line-on_line (String.◌∷◌ c s) = ground (arith, single_line-on_line s)

protected-on_line :
    (s : String) → all_chars is_on_line s ≡ true → all_chars is_on_line (protected s) ≡ true
unfolding replace_char append
protected-on_line String.[] h = refl
protected-on_line (String.◌∷◌ c s) h = elim (Bool-cases (code c == b'\\')) [
  | inl t ↦ rw (t, replace_char) ground (arith, protected-on_line s, h)
  | inr f ↦ elim (Bool-cases (code c == b'"')) [
    | inl t ↦ rw (f, t, replace_char) ground (arith, protected-on_line s, h)
    | inr g ↦ rw (f, g, replace_char) ground (arith, protected-on_line s, h)
  ]
]

-- A printer that reads a quoted text finds the text, with a space for each control character, and
-- its end exactly where the encoder put the closing quote, whatever the text holds; and no character
-- of the quoted text ends the line or is another control character.
pub quoted_lem :
    (s rest : String)
    → (read_quoted (append (quoted s) (append "\"" rest)) ≡ some (map on_line (codes s), rest))
      × (all_chars is_on_line (quoted s) ≡ true)
unfolding quoted append
quoted_lem s rest = (
  read-protected (single_line s) rest ∙ ap (λ (cs : List ℕ). some (cs, rest)) (codes-single_line s),
  protected-on_line (single_line s) (single_line-on_line s),
)
