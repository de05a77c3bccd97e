-- ===== src/Layout/Ink.antt =====
-- Wrapping a line loses no visible character (providers/windows/src/layout.rs).
use Prim.Native.Char.{Char, code}
use kiln_print.Prelude.{
  ℕ, ◌≡◌, refl, sym, ap, ◌∙◌, String, Bool, true, false, not, ◌&&◌, ◌||◌, List, [], ◌∷◌, ◌++◌, inl,
  inr, arith, ltb, ◌==◌, if◌then◌else◌, append, Bool-cases,
}
use kiln_print.Engine.Submit.JobNames.{char_len, is_whitespace, trim_end, cons_trimmed}
use kiln_print.Layout.{
  space, single, is_empty, is_nil, cons_word, split_inclusive, fits_trimmed, break_from, break_word,
  Lines, add_pieces, flush, start_word, add_word, add_words, end_lines, wrap_line,
}

-- The visible characters of a text, and of a list of texts, in order.
unfoldable pub ink : String → List ℕ
ink String.[] = []
ink (String.◌∷◌ c s) = let rest = ink s in if is_whitespace (code c) then rest else code c ∷ rest

unfoldable pub inks : List String → List ℕ
unfolding ink
inks [] = []
inks (s ∷ ss) = ink s ++ inks ss

assoc : (xs ys zs : List ℕ) → (xs ++ ys) ++ zs ≡ xs ++ (ys ++ zs)
assoc [] ys zs = refl
assoc (x ∷ xs) ys zs = ap (λ r. x ∷ r) (assoc xs ys zs)

nil_right : (xs : List ℕ) → xs ++ [] ≡ xs
nil_right [] = refl
nil_right (x ∷ xs) = ap (λ r. x ∷ r) (nil_right xs)

ink-append : (s t : String) → ink (append s t) ≡ ink s ++ ink t
unfolding ink append
ink-append String.[] t = refl
ink-append (String.◌∷◌ c s) t = elim (Bool-cases (is_whitespace (code c))) [
  | inl w ↦ rw (w, ink) (ink-append s t)
  | inr n ↦ rw (n, ink) (ap (λ r. code c ∷ r) (ink-append s t))
]

ink-dropped :
    (c : Char) (b : Bool)
    → is_whitespace (code c) ≡ b
    → ink (if b then String.[] else single c) ≡ ink (single c)
unfolding ink
ink-dropped c true h = sym (ap (λ (x : Bool). if x then [] else code c ∷ []) h)
ink-dropped c false h = refl

ink-cons_trimmed :
    (c : Char) (s : String) → ink (cons_trimmed (is_whitespace (code c)) c s) ≡ ink (String.◌∷◌ c s)
unfolding ink cons_trimmed
ink-cons_trimmed c String.[] = ink-dropped c (is_whitespace (code c)) refl
ink-cons_trimmed c (String.◌∷◌ d s) = refl

ink-trim_end : (s : String) → ink (trim_end s) ≡ ink s
unfolding ink trim_end
ink-trim_end String.[] = refl
ink-trim_end (String.◌∷◌ c s) =
    ink-cons_trimmed c (trim_end s)
    ∙ ap (λ r. if is_whitespace (code c) then r else code c ∷ r) (ink-trim_end s)

inks-append : (xs ys : List String) → inks (xs ++ ys) ≡ inks xs ++ inks ys
unfolding inks
inks-append [] ys = refl
inks-append (x ∷ xs) ys =
    ap (λ r. ink x ++ r) (inks-append xs ys) ∙ sym (assoc (ink x) (inks xs) (inks ys))

inks-snoc : (xs : List String) (s : String) → inks (xs ++ s ∷ []) ≡ inks xs ++ ink s
unfolding inks
inks-snoc xs s = inks-append xs (s ∷ []) ∙ ap (λ r. inks xs ++ r) (nil_right (ink s))

inks-cons_word :
    (b : Bool) (c : Char) (ws : List String) → inks (cons_word b c ws) ≡ ink (single c) ++ inks ws
unfolding inks ink
inks-cons_word true c ws = refl
inks-cons_word false c [] = refl
inks-cons_word false c (w ∷ ws) = elim (Bool-cases (is_whitespace (code c))) [
  | inl v ↦ rw (v, ink) refl
  | inr n ↦ rw (n, ink) refl
]

ink-cons : (c : Char) (s : String) → ink (String.◌∷◌ c s) ≡ ink (single c) ++ ink s
unfolding append
ink-cons c s = ink-append (single c) s

inks-split_inclusive : (s : String) → inks (split_inclusive s) ≡ ink s
unfolding inks ink split_inclusive append
inks-split_inclusive String.[] = refl
inks-split_inclusive (String.◌∷◌ c s) =
    inks-cons_word (code c == space) c (split_inclusive s)
    ∙ ap (λ r. ink (single c) ++ r) (inks-split_inclusive s)
    ∙ sym (ink-cons c s)

module _ (fits : String → Bool) where
  inks-break_from : (current s : String) → inks (break_from fits current s) ≡ ink current ++ ink s
  unfolding inks break_from
  inks-break_from current String.[] = refl
  inks-break_from current (String.◌∷◌ c s) =
      let longer = append current (single c) in
      let last : ink (String.◌∷◌ c s) ≡ ink (single c) ++ ink s = ink-cons c s in
      elim (Bool-cases (not (fits_trimmed fits longer) && ltb 1 (char_len longer))) [
        | inl t ↦
            rw (t, break_from)
              (ap (λ r. ink current ++ r) (inks-break_from (single c) s ∙ sym last))
        | inr f ↦
            rw (f, break_from)
              (inks-break_from longer s
                ∙ ap (λ r. r ++ ink s) (ink-append current (single c))
                ∙ assoc (ink current) (ink (single c)) (ink s)
                ∙ ap (λ r. ink current ++ r) (sym last))
      ]

  -- What the lines so far and the line being filled show.
  shown : Lines fits → List ℕ
  shown (out, current) = inks out ++ ink current

  shown-add_pieces : (out ps : List String) → shown (add_pieces fits out ps) ≡ inks out ++ inks ps
  unfolding shown add_pieces inks ink
  shown-add_pieces out [] = refl
  shown-add_pieces out (p ∷ []) = ap (λ r. inks out ++ r) (sym (nil_right (ink p)))
  shown-add_pieces out (p ∷ q ∷ ps) =
      shown-add_pieces (out ++ p ∷ []) (q ∷ ps)
      ∙ ap (λ r. r ++ inks (q ∷ ps)) (inks-snoc out p)
      ∙ assoc (inks out) (ink p) (inks (q ∷ ps))

  shown-flush :
      (out : List String) (current : String)
      → inks (flush fits (out, current)) ≡ inks out ++ ink current
  unfolding flush inks ink
  shown-flush out String.[] = sym (nil_right (inks out))
  shown-flush out (String.◌∷◌ c s) =
      inks-snoc out (trim_end (String.◌∷◌ c s))
      ∙ ap (λ r. inks out ++ r) (ink-trim_end (String.◌∷◌ c s))

  shown-start_word :
      (out : List String) (word : String) → shown (start_word fits out word) ≡ inks out ++ ink word
  unfolding shown start_word break_word ink
  shown-start_word out word = elim (Bool-cases (fits_trimmed fits word)) [
    | inl t ↦ rw (t, start_word) refl
    | inr f ↦
        rw (f, start_word)
          (shown-add_pieces out (break_word fits word)
            ∙ ap (λ r. inks out ++ r) (inks-break_from String.[] word))
  ]

  shown-add_word :
      (lines : Lines fits) (word : String)
      → shown (add_word fits lines word) ≡ shown lines ++ ink word
  unfolding shown add_word
  shown-add_word (out, current) word = elim (Bool-cases (fits_trimmed fits (append current word))) [
    | inl t ↦
        rw (t, add_word)
          (ap (λ r. inks out ++ r) (ink-append current word)
            ∙ sym (assoc (inks out) (ink current) (ink word)))
    | inr f ↦
        rw (f, add_word)
          (shown-start_word (flush fits (out, current)) word
            ∙ ap (λ r. r ++ ink word) (shown-flush out current))
  ]

  shown-add_words :
      (lines : Lines fits) (ws : List String)
      → shown (add_words fits lines ws) ≡ shown lines ++ inks ws
  unfolding add_words inks
  shown-add_words lines [] = sym (nil_right (shown lines))
  shown-add_words lines (w ∷ ws) =
      shown-add_words (add_word fits lines w) ws
      ∙ ap (λ r. r ++ inks ws) (shown-add_word lines w)
      ∙ assoc (shown lines) (ink w) (inks ws)

  ink-is_empty : (s : String) → is_empty s ≡ true → ink s ≡ []
  unfolding ink
  ink-is_empty String.[] h = refl
  ink-is_empty (String.◌∷◌ c s) h = absurd (ground (arith, h))

  inks-end_lines : (lines : Lines fits) → inks (end_lines fits lines) ≡ shown lines
  unfolding end_lines shown
  inks-end_lines (out, current) =
      let ended : inks (out ++ trim_end current ∷ []) ≡ inks out ++ ink current =
        inks-snoc out (trim_end current) ∙ ap (λ r. inks out ++ r) (ink-trim_end current) in
      elim (Bool-cases (is_empty (trim_end current))) [
        | inr f ↦ rw (f, end_lines) ended
        | inl t ↦ elim (Bool-cases (is_nil out)) [
          | inl n ↦ rw (t, n, end_lines) ended
          | inr n ↦
              rw (t, n, end_lines)
                (sym (nil_right (inks out))
                  ∙ ap (λ r. inks out ++ r)
                      (sym (sym (ink-trim_end current) ∙ ink-is_empty (trim_end current) t)))
        ]
      ]

  pub wrap_line-ink : (line : String) → inks (wrap_line fits line) ≡ ink line
  unfolding wrap_line inks ink shown
  wrap_line-ink line = elim (Bool-cases (is_empty line || fits line)) [
    | inl t ↦ rw (t, wrap_line) (nil_right (ink line))
    | inr f ↦
        rw (f, wrap_line)
          (inks-end_lines (add_words fits ([], String.[]) (split_inclusive line))
            ∙ shown-add_words ([], String.[]) (split_inclusive line)
            ∙ inks-split_inclusive line)
  ]
