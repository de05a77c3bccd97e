-- ===== src/Layout/Pages.antt =====
-- Filling pages loses no line (providers/windows/src/layout.rs).
use kiln_print.Prelude.{
  ℕ, zero, suc, ◌+◌, ◌-◌, ◌≡◌, ◌≤◌, max, refl, sym, ap, ◌∙◌, subst, List, [], ◌∷◌, ◌++◌, arith,
  take, drop, length, length-take_le, All, All-append,
}
use kiln_print.Layout.{chunks_from, page_chunks, paginate}

module _ {A : Type 0} where
  -- All lines of all pages, in order.
  unfoldable pub join : List (List A) → List A
  join [] = []
  join (page ∷ pages) = page ++ join pages

  assoc : (xs ys zs : List A) → (xs ++ ys) ++ zs ≡ xs ++ (ys ++ zs)
  assoc [] ys zs = refl
  assoc (x ∷ xs) ys zs = ap (λ r. x ∷ r) (assoc xs ys zs)

  join-append : (ps qs : List (List A)) → join (ps ++ qs) ≡ join ps ++ join qs
  unfolding join
  join-append [] qs = refl
  join-append (p ∷ ps) qs = ap (λ r. p ++ r) (join-append ps qs) ∙ sym (assoc p (join ps) (join qs))

  take-drop : (n : ℕ) (xs : List A) → take n xs ++ drop n xs ≡ xs
  take-drop zero xs = refl
  take-drop (suc n) [] = refl
  take-drop (suc n) (x ∷ xs) = ap (λ r. x ∷ r) (take-drop n xs)

  length-drop_le : (n : ℕ) (xs : List A) → length (drop n xs) ≤ length xs
  length-drop_le zero xs = omega arith
  length-drop_le (suc n) [] = omega arith
  length-drop_le (suc n) (x ∷ xs) = omega (arith, length-drop_le n xs)

  -- Fuel for as many pages as there are lines is enough.
  join-chunks_from :
      (n fuel : ℕ) (xs : List A) → length xs ≤ fuel → join (chunks_from n fuel xs) ≡ xs
  unfolding join chunks_from
  join-chunks_from n zero [] h = refl
  join-chunks_from n zero (x ∷ xs) h = absurd (omega (arith, h))
  join-chunks_from n (suc fuel) [] h = refl
  join-chunks_from n (suc fuel) (x ∷ xs) h =
      ap (λ r. x ∷ (take n xs ++ r))
        (join-chunks_from n fuel (drop n xs) (omega (arith, h, length-drop_le n xs)))
      ∙ ap (λ r. x ∷ r) (take-drop n xs)

  join-page_chunks : (n : ℕ) (xs : List A) → join (page_chunks n xs) ≡ xs
  unfolding join page_chunks
  join-page_chunks n [] = refl
  join-page_chunks n (x ∷ xs) = join-chunks_from n (length (x ∷ xs)) (x ∷ xs) (omega arith)

  chunks_from-All :
      (n fuel : ℕ) (xs : List A) → All (λ page. length page ≤ n + 1) (chunks_from n fuel xs)
  unfolding chunks_from
  chunks_from-All n zero xs = tt
  chunks_from-All n (suc fuel) [] = tt
  chunks_from-All n (suc fuel) (x ∷ xs) =
      (omega (arith, length-take_le n xs), chunks_from-All n fuel (drop n xs))

  page_chunks-All : (n : ℕ) (xs : List A) → All (λ page. length page ≤ n + 1) (page_chunks n xs)
  unfolding page_chunks
  page_chunks-All n [] = (omega arith, tt)
  page_chunks-All n (x ∷ xs) = chunks_from-All n (length (x ∷ xs)) (x ∷ xs)

  paginate-join : (pages : List (List A)) (k : ℕ) → join (paginate pages k) ≡ join pages
  unfolding join paginate
  paginate-join [] k = refl
  paginate-join (page ∷ pages) k =
      join-append (page_chunks (max k 1 - 1) page) (paginate pages k)
      ∙ ap (λ r. r ++ join (paginate pages k)) (join-page_chunks (max k 1 - 1) page)
      ∙ ap (λ r. page ++ r) (paginate-join pages k)

  paginate-All :
      (pages : List (List A)) (k : ℕ) → All (λ page. length page ≤ max k 1) (paginate pages k)
  unfolding paginate
  paginate-All [] k = tt
  paginate-All (page ∷ pages) k =
      All-append (λ page. length page ≤ max k 1) (page_chunks (max k 1 - 1) page) (paginate pages k)
        (subst (λ m. All (λ page. length page ≤ m) (page_chunks (max k 1 - 1) page)) (omega arith)
          (page_chunks-All (max k 1 - 1) page))
        (paginate-All pages k)

  -- The device pages hold all lines of the pages in their order, none more than the lines that fit on
  -- a page, or one.
  pub paginate_lem :
      (pages : List (List A)) (k : ℕ)
      → (join (paginate pages k) ≡ join pages)
        × All (λ page. length page ≤ max k 1) (paginate pages k)
  paginate_lem pages k = (paginate-join pages k, paginate-All pages k)
