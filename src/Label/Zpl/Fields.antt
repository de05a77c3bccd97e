-- ===== src/Label/Zpl/Fields.antt =====
-- A field of a ZPL label holds data only (`field` of protocols/src/label/zpl.rs).
use Prim.Native.Char.{Char, code}
use kiln_print.Prelude.{
  ℕ, ◌+◌, ◌-◌, ◌*◌, ◌≡◌, refl, ap, ◌∙◌, String, Bool, true, false, ◌||◌, List, [], ◌∷◌, arith, ltb,
  ◌==◌, ==_iff, if◌then◌else◌, Bool-cases, inl, inr, append,
}
use kiln_print.Label.Zpl.{escape, field}

-- How many prefixes of commands a text has.
abbrev pub is_command : ℕ → Bool
is_command c = (c == b'^') || (c == b'~')

unfoldable pub commands : String → ℕ
commands String.[] = 0
commands (String.◌∷◌ c s) = (if is_command (code c) then 1 else 0) + commands s

pub commands-append : (s t : String) → commands (append s t) ≡ commands s + commands t
unfolding commands append
commands-append String.[] t = omega arith
commands-append (String.◌∷◌ c s) t = omega (arith, commands-append s t)

abbrev hex_value : ℕ → ℕ
hex_value c = if ltb c 58 then c - 48 else c - 55

-- How a printer reads field data after `^FH`: the escape character stands before two digits.
unfoldable pub read_field : String → List ℕ
read_field String.[] = []
read_field (String.◌∷◌ c String.[]) = code c ∷ []
read_field (String.◌∷◌ c (String.◌∷◌ d String.[])) = code c ∷ code d ∷ []
read_field (String.◌∷◌ c (String.◌∷◌ d (String.◌∷◌ e s))) = elim (code c == b'_') [
  | true ↦ (hex_value (code d) * 16 + hex_value (code e)) ∷ read_field s
  | false ↦ code c ∷ read_field (String.◌∷◌ d (String.◌∷◌ e s))
]

-- The characters of a text, a line break as a space.
unfoldable pub flat : String → List ℕ
flat String.[] = []
flat (String.◌∷◌ c s) = (if (code c == 13) || (code c == 10) then 32 else code c) ∷ flat s

read-plain :
    (c : Char) (s : String)
    → (code c == b'_') ≡ false
    → read_field (String.◌∷◌ c s) ≡ code c ∷ read_field s
unfolding read_field
read-plain c String.[] f = refl
read-plain c (String.◌∷◌ d String.[]) f = refl
read-plain c (String.◌∷◌ d (String.◌∷◌ e s)) f = rw (f, read_field) refl

abbrev one : Char → String
one c = String.◌∷◌ c String.[]

abbrev flat_char : ℕ → ℕ
flat_char n = if (n == 13) || (n == 10) then 32 else n

read-escape :
    (c : Char) (rest : String)
    → read_field (escape (code c) (one c) rest) ≡ flat_char (code c) ∷ read_field rest
unfolding escape append
read-escape c rest = elim (Bool-cases (code c == b'_')) [
  | inl t ↦ rw ((==_iff (code c) b'_').0 t) (unfold read_field in refl)
  | inr n ↦ elim (Bool-cases (code c == b'^')) [
    | inl t ↦ rw ((==_iff (code c) b'^').0 t) (unfold read_field in refl)
    | inr n' ↦ elim (Bool-cases (code c == b'~')) [
      | inl t ↦ rw ((==_iff (code c) b'~').0 t) (unfold read_field in refl)
      | inr n'' ↦ elim (Bool-cases ((code c == 13) || (code c == 10))) [
        | inl t ↦ rw (n, n', n'', t, escape) (read-plain " " rest refl)
        | inr f ↦ rw (n, n', n'', f, escape) (read-plain c rest n)
      ]
    ]
  ]
]

read-field : (s : String) → read_field (field s) ≡ flat s
unfolding field flat
read-field String.[] = unfold read_field in refl
read-field (String.◌∷◌ c s) =
    read-escape c (field s) ∙ ap (λ r. flat_char (code c) ∷ r) (read-field s)

commands-escape :
    (c : Char) (rest : String) → commands (escape (code c) (one c) rest) ≡ commands rest
unfolding escape commands append
commands-escape c rest = ground (arith, commands-append "_5F" rest)

commands-field : (s : String) → commands (field s) ≡ 0
unfolding field
commands-field String.[] = unfold commands in refl
commands-field (String.◌∷◌ c s) = commands-escape c (field s) ∙ commands-field s

-- The data of a field is the text, with a line break as a space, and no character of it starts a
-- command or ends the field.
pub field_lem : (s : String) → (read_field (field s) ≡ flat s) × (commands (field s) ≡ 0)
field_lem s = (read-field s, commands-field s)
