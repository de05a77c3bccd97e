-- ===== src/Layout.antt =====
-- Wrapping lines and filling pages: providers/windows/src/layout.rs. `fits` measures a text.
pub mod Ink
pub mod Fits
pub mod Pages
use Prim.Native.Char.{Char, code}
use kiln_print.Prelude.{
  ℕ, zero, suc, ◌-◌, max, String, Bool, true, false, not, ◌&&◌, ◌||◌, List, [], ◌∷◌, ◌++◌, take,
  drop, length, ltb, ◌==◌, if◌then◌else◌, append,
}
use kiln_print.Engine.Submit.JobNames.{char_len, trim_end}

abbrev pub space : ℕ
space = 32

abbrev pub is_empty : String → Bool
is_empty String.[] = true
is_empty (String.◌∷◌ c s) = false

abbrev pub single : Char → String
single c = String.◌∷◌ c String.[]

-- `split_inclusive(' ')`: the last piece is there only if it is not empty.
abbrev pub cons_word : Bool → Char → List String → List String
cons_word true c ws = single c ∷ ws
cons_word false c [] = single c ∷ []
cons_word false c (w ∷ ws) = String.◌∷◌ c w ∷ ws

unfoldable pub split_inclusive : String → List String
split_inclusive String.[] = []
split_inclusive (String.◌∷◌ c s) = cons_word (code c == space) c (split_inclusive s)

abbrev pub is_nil {ℓ} : {A : Type ℓ} → List A → Bool
is_nil [] = true
is_nil (x ∷ xs) = false

module _ (fits : String → Bool) where
  abbrev pub fits_trimmed : String → Bool
  unfolding trim_end
  fits_trimmed s = fits (trim_end s)

  -- The loop of `break_word`: `current` is what it has of the next piece.
  unfoldable pub break_from : String → String → List String
  unfolding fits_trimmed
  break_from current String.[] = current ∷ []
  break_from current (String.◌∷◌ c s) =
      let longer = append current (single c) in
      elim (not (fits_trimmed longer) && ltb 1 (char_len longer)) [
        | true ↦ current ∷ break_from (single c) s
        | false ↦ break_from longer s
      ]

  unfoldable pub break_word : String → List String
  unfolding break_from
  break_word word = break_from String.[] word

  -- The lines that are done, and the one that is being filled.
  abbrev pub Lines : Type 0
  Lines = List String × String

  -- All pieces but the last are lines; `break_word` returns at least one.
  unfoldable pub add_pieces : List String → List String → Lines
  add_pieces out [] = (out, String.[])
  add_pieces out (p ∷ []) = (out, p)
  add_pieces out (p ∷ q ∷ ps) = add_pieces (out ++ p ∷ []) (q ∷ ps)

  unfoldable pub flush : Lines → List String
  unfolding trim_end
  flush (out, current) = if is_empty current then out else out ++ trim_end current ∷ []

  unfoldable pub start_word : List String → String → Lines
  unfolding add_pieces break_word fits_trimmed
  start_word out word = if fits_trimmed word then (out, word) else add_pieces out (break_word word)

  unfoldable pub add_word : Lines → String → Lines
  unfolding flush start_word fits_trimmed
  add_word (out, current) word =
      if fits_trimmed (append current word)
      then (out, append current word)
      else start_word (flush (out, current)) word

  unfoldable pub add_words : Lines → List String → Lines
  unfolding add_word
  add_words lines [] = lines
  add_words lines (w ∷ ws) = add_words (add_word lines w) ws

  unfoldable pub end_lines : Lines → List String
  unfolding trim_end
  end_lines (out, current) =
      if not (is_empty (trim_end current)) || is_nil out then out ++ trim_end current ∷ [] else out

  unfoldable pub wrap_line : String → List String
  unfolding end_lines add_words split_inclusive
  wrap_line line =
      if is_empty line || fits line
      then line ∷ []
      else end_lines (add_words ([], String.[]) (split_inclusive line))

-- `chunks` of `suc n` lines, by the number of lines.
unfoldable pub chunks_from {ℓ} : {A : Type ℓ} → ℕ → ℕ → List A → List (List A)
chunks_from n zero xs = []
chunks_from n (suc fuel) [] = []
chunks_from n (suc fuel) (x ∷ xs) = (x ∷ take n xs) ∷ chunks_from n fuel (drop n xs)

unfoldable pub page_chunks {ℓ} : {A : Type ℓ} → ℕ → List A → List (List A)
unfolding chunks_from
page_chunks n [] = [] ∷ []
page_chunks n (x ∷ xs) = chunks_from n (length (x ∷ xs)) (x ∷ xs)

unfoldable pub paginate {ℓ} : {A : Type ℓ} → List (List A) → ℕ → List (List A)
unfolding page_chunks
paginate [] lines_per_page = []
paginate (page ∷ pages) lines_per_page =
    page_chunks (max lines_per_page 1 - 1) page ++ paginate pages lines_per_page
