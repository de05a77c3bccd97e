-- ===== src/Layout/Fits.antt =====
-- Every wrapped line fits (providers/windows/src/layout.rs).
use Prim.Native.Char.{Char, code}
use kiln_print.Prelude.{
  ◌≡◌, ◌⊎◌, ◌≤◌, refl, ap, String, Bool, true, false, not, ◌&&◌, ◌||◌, List, [], ◌∷◌, ◌++◌, inl,
  inr, arith, ltb, if◌then◌else◌, append, All, All-append, Bool-cases,
}
use kiln_print.Engine.Submit.JobNames.{
  char_len, char_len-trim_end, is_whitespace, trim_end, cons_trimmed,
}
use kiln_print.Layout.Ink.{ink, inks, wrap_line-ink}
use kiln_print.Layout.{
  single, is_empty, is_nil, split_inclusive, fits_trimmed, break_from, break_word, Lines,
  add_pieces, flush, start_word, add_word, add_words, end_lines, wrap_line,
}

cons_trimmed-fixed :
    (c : Char) (s : String)
    → trim_end s ≡ s
    → trim_end (cons_trimmed (is_whitespace (code c)) c s)
      ≡ cons_trimmed (is_whitespace (code c)) c s
unfolding trim_end cons_trimmed
cons_trimmed-fixed c String.[] h = elim (Bool-cases (is_whitespace (code c))) [
  | inl w ↦ rw (w, cons_trimmed) refl
  | inr n ↦ alone (is_whitespace (code c)) refl
]
  where
    alone :
        (b : Bool)
        → is_whitespace (code c) ≡ b
        → trim_end (if b then String.[] else single c) ≡ (if b then String.[] else single c)
    alone true e = refl
    alone false e = ap (λ x. if x then String.[] else single c) e
cons_trimmed-fixed c (String.◌∷◌ d s) h = ap (λ r. cons_trimmed (is_whitespace (code c)) c r) h

trim_end-fixed : (s : String) → trim_end (trim_end s) ≡ trim_end s
unfolding trim_end
trim_end-fixed String.[] = refl
trim_end-fixed (String.◌∷◌ c s) = cons_trimmed-fixed c (trim_end s) (trim_end-fixed s)

module _ (fits : String → Bool) where
  -- A text that fits, at the latest when the white space at its end is cut off, or that cannot be
  -- broken further.
  abbrev pub IsShort : String → Type 0
  IsShort s = (fits s ≡ true) ⊎ ((fits (trim_end s) ≡ true) ⊎ (char_len s ≤ 1))

  -- What the loop keeps of the line being filled.
  abbrev IsOpen : String → Type 0
  IsOpen s = (fits (trim_end s) ≡ true) ⊎ (char_len s ≤ 1)

  trimmed-IsShort : (s : String) → IsOpen s → IsShort (trim_end s)
  trimmed-IsShort s (inl h) = inl h
  trimmed-IsShort s (inr h) = inr (inr (omega (arith, h, char_len-trim_end s)))

  break_from-IsOpen : (current s : String) → IsOpen current → All IsOpen (break_from fits current s)
  unfolding break_from
  break_from-IsOpen current String.[] h = (h, tt)
  break_from-IsOpen current (String.◌∷◌ c s) h =
      let longer = append current (single c) in
      elim (Bool-cases (not (fits_trimmed fits longer) && ltb 1 (char_len longer))) [
        | inl t ↦ rw (t, break_from) (h, break_from-IsOpen (single c) s (inr (omega arith)))
        | inr f ↦ rw (f, break_from) (break_from-IsOpen longer s (still longer f))
      ]
    where
      still :
          (longer : String)
          → (not (fits_trimmed fits longer) && ltb 1 (char_len longer)) ≡ false
          → IsOpen longer
      still longer f = elim (Bool-cases (fits_trimmed fits longer)) [
        | inl t ↦ inl t
        | inr n ↦ inr (ground (arith, f, n))
      ]

  -- The lines are short, and the one being filled is open.
  abbrev AreShort : Lines fits → Type 0
  AreShort (out, current) = All IsShort out × IsOpen current

  add_pieces-AreShort :
      (out ps : List String) → All IsShort out → All IsOpen ps → AreShort (add_pieces fits out ps)
  unfolding add_pieces
  add_pieces-AreShort out [] h k = (h, inr (omega arith))
  add_pieces-AreShort out (p ∷ []) h k = (h, k.0)
  add_pieces-AreShort out (p ∷ q ∷ ps) h k =
      add_pieces-AreShort (out ++ p ∷ []) (q ∷ ps) (All-append IsShort out (p ∷ []) h (inr k.0, tt))
        k.1

  flush-IsShort : (lines : Lines fits) → AreShort lines → All IsShort (flush fits lines)
  unfolding flush
  flush-IsShort (out, String.[]) h = h.0
  flush-IsShort (out, String.◌∷◌ c s) h =
      let current = String.◌∷◌ c s in
      All-append IsShort out (trim_end current ∷ []) h.0 (trimmed-IsShort current h.1, tt)

  start_word-AreShort :
      (out : List String) (word : String) → All IsShort out → AreShort (start_word fits out word)
  unfolding start_word break_word
  start_word-AreShort out word h = elim (Bool-cases (fits_trimmed fits word)) [
    | inl t ↦ rw (t, start_word) (h, inl t)
    | inr f ↦
        rw (f, start_word)
          (add_pieces-AreShort out (break_word fits word) h
            (break_from-IsOpen String.[] word (inr (omega arith))))
  ]

  add_word-AreShort :
      (lines : Lines fits) (word : String) → AreShort lines → AreShort (add_word fits lines word)
  unfolding add_word
  add_word-AreShort (out, current) word h =
      elim (Bool-cases (fits_trimmed fits (append current word))) [
        | inl t ↦ rw (t, add_word) (h.0, inl t)
        | inr f ↦
            rw (f, add_word)
              (start_word-AreShort (flush fits (out, current)) word
                (flush-IsShort (out, current) h))
      ]

  add_words-AreShort :
      (lines : Lines fits) (ws : List String) → AreShort lines → AreShort (add_words fits lines ws)
  unfolding add_words
  add_words-AreShort lines [] h = h
  add_words-AreShort lines (w ∷ ws) h =
      add_words-AreShort (add_word fits lines w) ws (add_word-AreShort lines w h)

  end_lines-IsShort : (lines : Lines fits) → AreShort lines → All IsShort (end_lines fits lines)
  unfolding end_lines
  end_lines-IsShort (out, current) h =
      elim (Bool-cases (not (is_empty (trim_end current)) || is_nil out)) [
        | inl t ↦
            rw (t, end_lines)
              (All-append IsShort out (trim_end current ∷ []) h.0 (trimmed-IsShort current h.1, tt))
        | inr f ↦ rw (f, end_lines) h.0
      ]

  wrap_line-IsShort : (line : String) → All IsShort (wrap_line fits line)
  unfolding wrap_line
  wrap_line-IsShort line = elim (Bool-cases (is_empty line || fits line)) [
    | inl t ↦ rw (t, wrap_line) (whole line t, tt)
    | inr f ↦
        rw (f, wrap_line)
          (end_lines-IsShort (add_words fits ([], String.[]) (split_inclusive line))
            (add_words-AreShort ([], String.[]) (split_inclusive line) (tt, inr (omega arith))))
  ]
    where
      whole : (s : String) → (is_empty s || fits s) ≡ true → IsShort s
      whole String.[] t = inr (inr (omega arith))
      whole (String.◌∷◌ c s) t = inl t

  -- The lines that a line is wrapped into show, one after another, exactly the characters of the line
  -- that are not white space; each of them fits, at the latest when the white space at its end is cut
  -- off, or has at most one character.
  pub wrap_line_lem :
      (line : String) → (inks (wrap_line fits line) ≡ ink line) × All IsShort (wrap_line fits line)
  wrap_line_lem line = (wrap_line-ink fits line, wrap_line-IsShort line)
