-- ===== src/Examples/Pages.antt =====
-- Page ranges at concrete texts (print-core/src/model/page.rs).
use kiln_print.Prelude.{ℕ, ◌≡◌, ◌≢◌, ◌↔◌, ◌<◌, refl, some, none, [], ◌∷◌, All, Memᴰ}
use kiln_print.Error.{ok, err}
use kiln_print.Page.{PageRanges, parse, indices, invalid_ranges}
use kiln_print.Page.Laws.{IsRange, HeldBy, parse-indices}

abbrev ranges : PageRanges
ranges = (1, some 3) ∷ (5, some 5) ∷ (8, none) ∷ []

parsed : parse "1-3, 5,8-" ≡ ok ranges
unfolding parse
parsed = refl

nine_pages : indices ranges 9 ≡ 0 ∷ 1 ∷ 2 ∷ 4 ∷ 7 ∷ 8 ∷ []
unfolding indices
nine_pages = refl

backwards : parse "3-1" ≡ err (invalid_ranges "3-1")
unfolding parse
backwards = refl

parse-indices_example :
    (ranges ≢ [])
    × All IsRange ranges
    × ((n page_count : ℕ)
        → Memᴰ n (indices ranges page_count) ↔ ((n < page_count) × HeldBy n ranges))
parse-indices_example = parse-indices "1-3, 5,8-" ranges parsed
