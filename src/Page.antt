-- ===== src/Page.antt =====
-- Page ranges of print-core/src/model/page.rs: `PageRanges::parse` and `indices`.
pub mod Laws
use kiln_print.Prelude.{
  ℕ, zero, suc, ◌+◌, ◌-◌, min, String, Bool, true, false, not, ◌||◌, Option, none, some, List, [],
  ◌∷◌, ◌++◌, keep, map, ltb, ◌==◌, str_eq, if◌then◌else◌, unwrap_or, split, split_once, parse_uint,
}
use kiln_print.Error.{PrintError, Result, ok, err, ok_or, text, invalid_payload_error, ◌>>=◌}
use kiln_print.Engine.Submit.JobNames.{trim_start, trim_end}

-- The first page and the last, both from 1 on; without a last page, to the end.
abbrev pub PageRange : Type 0
PageRange = ℕ × Option ℕ

abbrev pub PageRanges : Type 0
PageRanges = List PageRange

abbrev u32_max : ℕ
u32_max = 4294967295

abbrev pub comma : ℕ
comma = 44

abbrev dash : ℕ
dash = 45

unfoldable pub invalid_ranges : String → PrintError
unfolding invalid_payload_error
invalid_ranges spec =
    invalid_payload_error
      (text "invalid pageRange '" ∷ text spec ∷ text "'; use e.g. \"1-3,5,8-\"" ∷ [])

unfoldable pub trimmed : String → String
unfolding trim_start trim_end
trimmed s = trim_end (trim_start s)

unfoldable pub parse_end : String → Option (Option ℕ)
unfolding parse_uint
parse_end String.[] = some none
parse_end b = elim (parse_uint u32_max b) [ none ↦ none | some e ↦ some (some e) ]

-- A part with a dash, and one without.
unfoldable pub parse_span : String → String → Option PageRange
unfolding parse_end parse_uint
parse_span a b = elim (parse_uint u32_max a) [
  | none ↦ none
  | some start ↦ elim (parse_end b) [ none ↦ none | some end ↦ some (start, end) ]
]

unfoldable pub parse_page : String → Option PageRange
unfolding parse_uint
parse_page part = elim (parse_uint u32_max part) [
  | none ↦ none
  | some page ↦ some (page, some page)
]

abbrev pub is_before : Option ℕ → ℕ → Bool
is_before none start = false
is_before (some e) start = ltb e start

unfoldable pub parse_bounds : String → Option PageRange
unfolding parse_span parse_page split_once trimmed
parse_bounds part = elim (split_once dash part) [
  | none ↦ parse_page part
  | some (a, b) ↦ parse_span (trimmed a) (trimmed b)
]

unfoldable pub valid_range : PageRange → Option PageRange
valid_range (start, end) = if (start == 0) || is_before end start then none else some (start, end)

abbrev pub cons_valid : Option PageRange → Option PageRanges → Option PageRanges
cons_valid none rs = none
cons_valid (some r) none = none
cons_valid (some r) (some rs) = some (r ∷ rs)

abbrev pub and_then : Option PageRange → (PageRange → Option PageRange) → Option PageRange
and_then none f = none
and_then (some r) f = f r

unfoldable pub parse_parts : List String → Option PageRanges
unfolding parse_bounds valid_range
parse_parts [] = some []
parse_parts (part ∷ parts) =
    cons_valid (and_then (parse_bounds part) valid_range) (parse_parts parts)

abbrev pub non_empty : Option PageRanges → Option PageRanges
non_empty (some (r ∷ rs)) = some (r ∷ rs)
non_empty _ = none

-- Every error is the same, so the order of the checks does not show.
unfoldable pub parse : String → Result PageRanges
unfolding parse_parts split trimmed invalid_ranges
parse spec =
    ok_or (non_empty (parse_parts (keep (λ p. not (str_eq p "")) (map trimmed (split comma spec)))))
      (invalid_ranges spec)

-- `count` pages from `page` on, by their indices from 0.
unfoldable pub pages_from : ℕ → ℕ → List ℕ
pages_from page zero = []
pages_from page (suc count) = (page - 1) ∷ pages_from (page + 1) count

unfoldable pub range_indices : ℕ → PageRange → List ℕ
unfolding pages_from
range_indices page_count (start, end) =
    pages_from start (min (unwrap_or end page_count) page_count + 1 - start)

unfoldable pub indices : PageRanges → ℕ → List ℕ
unfolding range_indices
indices [] page_count = []
indices (r ∷ rs) page_count = range_indices page_count r ++ indices rs page_count
