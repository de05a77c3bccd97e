-- ===== src/Examples/Layout.antt =====
-- Wrapping and paging at concrete texts (providers/windows/src/layout.rs).
use kiln_print.Prelude.{ℕ, ◌≡◌, refl, String, Bool, List, [], ◌∷◌, All, leb, append}
use kiln_print.Engine.Submit.JobNames.{char_len}
use kiln_print.Layout.{wrap_line, paginate}
use kiln_print.Layout.Ink.{ink, inks}
use kiln_print.Layout.Fits.{IsShort, wrap_line_lem}

abbrev width : ℕ → String → Bool
width n s = leb (char_len s) n

at_words : wrap_line (width 10) "the quick brown fox" ≡ "the quick" ∷ "brown fox" ∷ []
unfolding wrap_line char_len append
at_words = refl

long_words : wrap_line (width 4) "abcdefghij xy" ≡ "abcd" ∷ "efgh" ∷ "ij" ∷ "xy" ∷ []
unfolding wrap_line char_len append
long_words = refl

narrow : wrap_line (width 0) "abc" ≡ "a" ∷ "b" ∷ "c" ∷ []
unfolding wrap_line char_len append
narrow = refl

wrap_line_lem_example :
    (inks (wrap_line (width 4) "abcdefghij xy") ≡ ink "abcdefghij xy")
    × All (IsShort (width 4)) (wrap_line (width 4) "abcdefghij xy")
wrap_line_lem_example = wrap_line_lem (width 4) "abcdefghij xy"

abbrev pages : List (List ℕ)
pages = (0 ∷ 1 ∷ 2 ∷ 3 ∷ 4 ∷ []) ∷ [] ∷ (0 ∷ 1 ∷ []) ∷ []

blank_kept : paginate pages 2 ≡ (0 ∷ 1 ∷ []) ∷ (2 ∷ 3 ∷ []) ∷ (4 ∷ []) ∷ [] ∷ (0 ∷ 1 ∷ []) ∷ []
unfolding paginate
blank_kept = refl
