-- ===== src/Engine/Submit/JobNames.antt =====
-- `sanitise_job_name` of print-core/src/engine/mod.rs, and the keys that
-- `validate_idempotency_key` takes.
use Prim.Native.Char.{Char, code}
use kiln_print.Prelude.{
  ℕ, zero, suc, ◌+◌, ◌≡◌, refl, ap, ◌≤◌, ◌↔◌, String, Bool, true, false, not, ◌&&◌, ◌||◌, arith,
  ltb, leb, ◌==◌, if◌then◌else◌,
}
use kiln_print.Error.{ok}
use kiln_print.Engine.Submit.Checks.{validate_idempotency_key, byte_len, all_chars, is_graphic}

abbrev pub char_len : String → ℕ
char_len String.[] = 0
char_len (String.◌∷◌ c s) = char_len s + 1

-- `char::is_control`: the category Cc.
abbrev pub is_control : ℕ → Bool
is_control c = ltb c 32 || (leb 127 c && leb c 159)

-- `char::is_whitespace`: the property White_Space.
abbrev pub is_whitespace : ℕ → Bool
is_whitespace c =
    (leb 9 c && leb c 13)
    || (c == 32)
    || (c == 133)
    || (c == 160)
    || (c == 5760)
    || (leb 8192 c && leb c 8202)
    || (c == 8232)
    || (c == 8233)
    || (c == 8239)
    || (c == 8287)
    || (c == 12288)

unfoldable pub keep_chars : (ℕ → Bool) → String → String
keep_chars p String.[] = String.[]
keep_chars p (String.◌∷◌ c s) =
    let rest = keep_chars p s in if p (code c) then String.◌∷◌ c rest else rest

unfoldable pub take_chars : ℕ → String → String
take_chars zero s = String.[]
take_chars (suc n) String.[] = String.[]
take_chars (suc n) (String.◌∷◌ c s) = String.◌∷◌ c (take_chars n s)

unfoldable pub trim_start : String → String
trim_start String.[] = String.[]
trim_start (String.◌∷◌ c s) =
    let rest = trim_start s in if is_whitespace (code c) then rest else String.◌∷◌ c s

unfoldable pub cons_trimmed : Bool → Char → String → String
cons_trimmed space c String.[] = if space then String.[] else String.◌∷◌ c String.[]
cons_trimmed space c (String.◌∷◌ d s) = String.◌∷◌ c (String.◌∷◌ d s)

unfoldable pub trim_end : String → String
unfolding cons_trimmed
trim_end String.[] = String.[]
trim_end (String.◌∷◌ c s) = cons_trimmed (is_whitespace (code c)) c (trim_end s)

unfoldable pub sanitise_job_name : String → String
unfolding keep_chars take_chars trim_start trim_end
sanitise_job_name name =
    trim_end (trim_start (take_chars 200 (keep_chars (λ c. not (is_control c)) name)))

byte_len-graphic : (s : String) → all_chars is_graphic s ≡ true → byte_len s ≡ char_len s
byte_len-graphic String.[] h = refl
byte_len-graphic (String.◌∷◌ c s) h = ground (arith, byte_len-graphic s)

-- A key is taken exactly if it has 1 to 128 characters, all of them printable ASCII.
pub validate_idempotency_key_iff :
    (key : String)
    → (validate_idempotency_key key ≡ ok tt)
      ↔ ((all_chars is_graphic key ≡ true) × (1 ≤ char_len key) × (char_len key ≤ 128))
unfolding validate_idempotency_key
validate_idempotency_key_iff key = ground (arith, byte_len-graphic key)

all-keep : (p : ℕ → Bool) (s : String) → all_chars p (keep_chars p s) ≡ true
unfolding keep_chars
all-keep p String.[] = refl
all-keep p (String.◌∷◌ c s) = ground (arith, all-keep p s)

all-take :
    (p : ℕ → Bool) (n : ℕ) (s : String) → all_chars p s ≡ true → all_chars p (take_chars n s) ≡ true
unfolding take_chars
all-take p zero s h = refl
all-take p (suc n) String.[] h = refl
all-take p (suc n) (String.◌∷◌ c s) h = ground (arith, all-take p n s)

char_len-take : (n : ℕ) (s : String) → char_len (take_chars n s) ≤ n
unfolding take_chars
char_len-take zero s = omega arith
char_len-take (suc n) String.[] = omega arith
char_len-take (suc n) (String.◌∷◌ c s) = ground (arith, char_len-take n s)

all-trim_start :
    (p : ℕ → Bool) (s : String) → all_chars p s ≡ true → all_chars p (trim_start s) ≡ true
unfolding trim_start
all-trim_start p String.[] h = refl
all-trim_start p (String.◌∷◌ c s) h = ground (arith, all-trim_start p s)

char_len-trim_start : (s : String) → char_len (trim_start s) ≤ char_len s
unfolding trim_start
char_len-trim_start String.[] = omega arith
char_len-trim_start (String.◌∷◌ c s) = ground (arith, char_len-trim_start s)

all-cons_trimmed :
    (p : ℕ → Bool) (space : Bool) (c : Char) (r : String)
    → p (code c) ≡ true
    → all_chars p r ≡ true
    → all_chars p (cons_trimmed space c r) ≡ true
unfolding cons_trimmed
all-cons_trimmed p true c String.[] h k = refl
all-cons_trimmed p false c String.[] h k = ground arith
all-cons_trimmed p space c (String.◌∷◌ d r) h k = ground arith

all-trim_end : (p : ℕ → Bool) (s : String) → all_chars p s ≡ true → all_chars p (trim_end s) ≡ true
unfolding trim_end
all-trim_end p String.[] h = refl
all-trim_end p (String.◌∷◌ c s) h =
    all-cons_trimmed p (is_whitespace (code c)) c (trim_end s) (ground arith)
      (all-trim_end p s (ground arith))

char_len-cons_trimmed :
    (space : Bool) (c : Char) (r : String) → char_len (cons_trimmed space c r) ≤ char_len r + 1
unfolding cons_trimmed
char_len-cons_trimmed true c String.[] = omega arith
char_len-cons_trimmed false c String.[] = omega arith
char_len-cons_trimmed space c (String.◌∷◌ d r) = omega arith

pub char_len-trim_end : (s : String) → char_len (trim_end s) ≤ char_len s
unfolding trim_end
char_len-trim_end String.[] = omega arith
char_len-trim_end (String.◌∷◌ c s) =
    omega
      (arith, char_len-trim_end s, char_len-cons_trimmed (is_whitespace (code c)) c (trim_end s))

-- No white space at the front, and none at the back.
abbrev pub starts_well : String → Bool
starts_well String.[] = true
starts_well (String.◌∷◌ c s) = not (is_whitespace (code c))

abbrev pub ends_well : String → Bool
ends_well String.[] = true
ends_well (String.◌∷◌ c String.[]) = not (is_whitespace (code c))
ends_well (String.◌∷◌ c (String.◌∷◌ d s)) = ends_well (String.◌∷◌ d s)

starts_well-trim_start : (s : String) → starts_well (trim_start s) ≡ true
unfolding trim_start
starts_well-trim_start String.[] = refl
starts_well-trim_start (String.◌∷◌ c s) = ground (arith, starts_well-trim_start s)

starts_well-cons_trimmed :
    (space : Bool) (c : Char) (r : String)
    → is_whitespace (code c) ≡ false
    → starts_well (cons_trimmed space c r) ≡ true
unfolding cons_trimmed
starts_well-cons_trimmed true c String.[] h = refl
starts_well-cons_trimmed false c String.[] h = ap not h
starts_well-cons_trimmed space c (String.◌∷◌ d r) h = ap not h

starts_well-trim_end : (s : String) → starts_well s ≡ true → starts_well (trim_end s) ≡ true
unfolding trim_end
starts_well-trim_end String.[] h = refl
starts_well-trim_end (String.◌∷◌ c s) h =
    starts_well-cons_trimmed (is_whitespace (code c)) c (trim_end s) (ground arith)

ends_well-cons_trimmed :
    (space : Bool) (c : Char) (r : String)
    → is_whitespace (code c) ≡ space
    → ends_well r ≡ true
    → ends_well (cons_trimmed space c r) ≡ true
unfolding cons_trimmed
ends_well-cons_trimmed true c String.[] e h = refl
ends_well-cons_trimmed false c String.[] e h = ap not e
ends_well-cons_trimmed space c (String.◌∷◌ d r) e h = h

ends_well-trim_end : (s : String) → ends_well (trim_end s) ≡ true
unfolding trim_end
ends_well-trim_end String.[] = refl
ends_well-trim_end (String.◌∷◌ c s) =
    ends_well-cons_trimmed (is_whitespace (code c)) c (trim_end s) refl (ends_well-trim_end s)

-- A sanitised name has at most 200 characters, no control character, and no white space at either end.
pub sanitise_job_name_lem :
    (name : String)
    → (char_len (sanitise_job_name name) ≤ 200)
      × (all_chars (λ c. not (is_control c)) (sanitise_job_name name) ≡ true)
      × (starts_well (sanitise_job_name name) ≡ true)
      × (ends_well (sanitise_job_name name) ≡ true)
unfolding sanitise_job_name
sanitise_job_name_lem name =
    let clean : ℕ → Bool = λ c. not (is_control c) in
    let kept = keep_chars clean name in
    let taken = take_chars 200 kept in
    (
      omega (
        arith,
        char_len-trim_end (trim_start taken),
        char_len-trim_start taken,
        char_len-take 200 kept,
      ),
      all-trim_end clean (trim_start taken)
          (all-trim_start clean taken (all-take clean 200 kept (all-keep clean name))),
      starts_well-trim_end (trim_start taken) (starts_well-trim_start taken),
      ends_well-trim_end (trim_start taken),
    )
