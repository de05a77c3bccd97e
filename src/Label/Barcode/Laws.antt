-- ===== src/Label/Barcode/Laws.antt =====
-- What the choice of a font and the payload of a barcode are (protocols/src/label/mod.rs).
use kiln_print.Prelude.{
  ℕ, zero, suc, ◌*◌, ◌≡◌, refl, sym, subst, ap, ◌≤◌, inl, inr, min, max, ◌/◌, String, Bool, true,
  List, [], ◌∷◌, All, Memᴰ, arith, leb, leb→le, Bool-cases,
}
use kiln_print.Error.{ok}
use kiln_print.Engine.Submit.Checks.{all_chars, byte_len}
use kiln_print.Engine.Submit.JobNames.{char_len, take_chars}
use kiln_print.Escpos.{Symbology, code128, code39, ean13, ean8, upc_a, itf}
use kiln_print.Label.{is_digit, is_barcode, validate_barcode}
use kiln_print.Label.Barcode.Magnification.{magnification-nearest}
use kiln_print.Label.Barcode.{
  abs_diff, scale, magnification, better_font, pick_font, kept_length, barcode_payload,
}

-- How far a font is from the height that is wanted, at its best magnification.
abbrev pub miss : ℕ → ℕ → ℕ → String × ℕ → ℕ
miss target dpi max_mult f =
    let h = scale dpi f.1 in abs_diff (h * magnification max_mult target h) target

-- A font of the list with its magnification and its miss.
abbrev Chosen : ℕ → ℕ → ℕ → List (String × ℕ) → String × ℕ × ℕ → Type 0
Chosen target dpi max_mult fonts best =
    (f : String × ℕ) × Memᴰ f fonts
    × (best ≡ (f.0, magnification max_mult target (scale dpi f.1), miss target dpi max_mult f))

module _ (target dpi max_mult : ℕ) where
  abbrev tried : String × ℕ → String × ℕ × ℕ
  tried f = (f.0, magnification max_mult target (scale dpi f.1), miss target dpi max_mult f)

  abbrev found : List (String × ℕ) → String × ℕ × ℕ → String × ℕ × ℕ
  found = better_font target dpi max_mult

  -- No worse than what was best before, nor than any of the fonts.
  abbrev Least : String × ℕ × ℕ → List (String × ℕ) → String × ℕ × ℕ → Type 0
  Least best fonts r = (r.2 ≤ best.2) × All (λ f. r.2 ≤ miss target dpi max_mult f) fonts

  better_font-Least :
      (fonts : List (String × ℕ)) (best : String × ℕ × ℕ) → Least best fonts (found fonts best)
  unfolding better_font
  better_font-Least [] best = (omega arith, tt)
  better_font-Least (f ∷ fs) best = elim (Bool-cases (leb (miss target dpi max_mult f) best.2)) [
    | inl t ↦
        let step : found (f ∷ fs) best ≡ found fs (tried f) = rw (t, better_font) refl in
        let (low, all_low) = better_font-Least fs (tried f) in
        subst (Least best (f ∷ fs)) (sym step)
          (omega (arith, low, leb→le (miss target dpi max_mult f) best.2 t), (low, all_low))
    | inr n ↦
        let step : found (f ∷ fs) best ≡ found fs best = rw (n, better_font) refl in
        let (low, all_low) = better_font-Least fs best in
        subst (Least best (f ∷ fs)) (sym step) (low, (ground (arith, low, n), all_low))
  ]

  better_font-Chosen :
      (all : List (String × ℕ)) (fonts : List (String × ℕ)) (best : String × ℕ × ℕ)
      → ((g : String × ℕ) → Memᴰ g fonts → Memᴰ g all)
      → Chosen target dpi max_mult all best
      → Chosen target dpi max_mult all (found fonts best)
  unfolding better_font
  better_font-Chosen all [] best sub c = c
  better_font-Chosen all (f ∷ fs) best sub c =
      elim (Bool-cases (leb (miss target dpi max_mult f) best.2)) [
        | inl t ↦
            rw (t, better_font)
              (better_font-Chosen all fs (tried f) (λ g m. sub g (Memᴰ.tail m))
                (f, sub f (Memᴰ.head refl), refl))
        | inr n ↦
            rw (n, better_font) (better_font-Chosen all fs best (λ g m. sub g (Memᴰ.tail m)) c)
      ]

-- What is no farther than the fonts at their rounded magnifications is no farther than they are at
-- any.
nearest :
    (target dpi max_mult best : ℕ) (fonts : List (String × ℕ))
    → All (λ g. best ≤ miss target dpi max_mult g) fonts
    → All (λ g. (n : ℕ) → 1 ≤ n → n ≤ max_mult → best ≤ abs_diff (scale dpi g.1 * n) target) fonts
nearest target dpi max_mult best [] h = tt
nearest target dpi max_mult best (g ∷ fonts) h = (
  λ n low high.
      let near : miss target dpi max_mult g ≤ abs_diff (scale dpi g.1 * n) target =
        magnification-nearest max_mult target (scale dpi g.1) n (omega arith) low high in
      omega (arith, near, h.0),
  nearest target dpi max_mult best fonts h.1,
)

better_font-first :
    (target dpi max_mult : ℕ) (f : String × ℕ) (fs : List (String × ℕ)) (best : String × ℕ × ℕ)
    → leb (miss target dpi max_mult f) best.2 ≡ true
    → better_font target dpi max_mult (f ∷ fs) best
      ≡ better_font target dpi max_mult fs (tried target dpi max_mult f)
unfolding better_font
better_font-first target dpi max_mult f fs best t = rw (t, better_font) refl

-- The height of a font in dots at a resolution, at least one.
abbrev pub height_at : ℕ → String × ℕ → ℕ
height_at dpi f = max (f.1 * dpi / 203) 1

-- The font that is picked is one of the list, at a magnification from 1 to the largest; and no font
-- of the list comes closer to the height that is wanted at any such magnification, if the first font
-- misses it by less than 2^32 dots.
pub pick_font-least :
    (first : String × ℕ) (rest : List (String × ℕ)) (target dpi max_mult : ℕ)
    → miss target dpi max_mult first ≤ 4294967295
    → 1 ≤ max_mult
    → (f : String × ℕ) × Memᴰ f (first ∷ rest)
      × (m : ℕ) × (pick_font first rest target dpi max_mult ≡ (f.0, m))
      × (1 ≤ m)
      × (m ≤ max_mult)
      × All
          (λ g.
            (n : ℕ)
            → 1 ≤ n
            → n ≤ max_mult
            → abs_diff (height_at dpi f * m) target ≤ abs_diff (height_at dpi g * n) target)
          (first ∷ rest)
unfolding pick_font
pick_font-least first rest target dpi max_mult h most =
    let fonts : List (String × ℕ) = first ∷ rest in
    let initial : String × ℕ × ℕ = (first.0, 1, 4294967295) in
    let begun : leb (miss target dpi max_mult first) 4294967295 ≡ true = ground (arith, h) in
    let step : better_font target dpi max_mult fonts initial
        ≡ better_font target dpi max_mult rest (tried target dpi max_mult first) =
      better_font-first target dpi max_mult first rest initial begun in
    let (f, among, same) = subst (Chosen target dpi max_mult fonts) (sym step) (
      better_font-Chosen target dpi max_mult fonts rest (tried target dpi max_mult first)
        (λ g m. Memᴰ.tail m) (first, Memᴰ.head refl, refl)) in
    let (low, least) = better_font-Least target dpi max_mult fonts initial in
    (
      f,
      among,
      magnification max_mult target (scale dpi f.1),
      ap (λ (b : String × ℕ × ℕ). (b.0, b.1)) same,
      omega (arith, most),
      omega arith,
      nearest target dpi max_mult (miss target dpi max_mult f) fonts (
          subst (λ (n : ℕ). All (λ g. n ≤ miss target dpi max_mult g) fonts)
            (ap (λ (b : String × ℕ × ℕ). b.2) same) least),
    )

char_len-take_exact : (n : ℕ) (s : String) → n ≤ char_len s → char_len (take_chars n s) ≡ n
unfolding take_chars
char_len-take_exact zero s h = refl
char_len-take_exact (suc n) String.[] h = absurd (omega (arith, h))
char_len-take_exact (suc n) (String.◌∷◌ c s) h =
    omega (arith, char_len-take_exact n s (omega (arith, h)))

take_chars-all : (n : ℕ) (s : String) → char_len s ≤ n → take_chars n s ≡ s
unfolding take_chars
take_chars-all zero String.[] h = refl
take_chars-all zero (String.◌∷◌ c s) h = absurd (omega (arith, h))
take_chars-all (suc n) String.[] h = refl
take_chars-all (suc n) (String.◌∷◌ c s) h =
    ap (String.◌∷◌ c) (take_chars-all n s (omega (arith, h)))

all-take_chars :
    (p : ℕ → Bool) (n : ℕ) (s : String) → all_chars p s ≡ true → all_chars p (take_chars n s) ≡ true
unfolding take_chars
all-take_chars p zero s h = refl
all-take_chars p (suc n) String.[] h = refl
all-take_chars p (suc n) (String.◌∷◌ c s) h = ground (arith, all-take_chars p n s)

byte_len-digits : (s : String) → all_chars is_digit s ≡ true → byte_len s ≡ char_len s
byte_len-digits String.[] h = refl
byte_len-digits (String.◌∷◌ c s) h = ground (arith, byte_len-digits s)

validated :
    (symbology : Symbology) (s : String)
    → validate_barcode symbology s ≡ ok tt
    → is_barcode symbology s ≡ true
unfolding validate_barcode
validated symbology s h = elim (Bool-cases (is_barcode symbology s)) [
  | inl t ↦ t
  | inr f ↦ absurd (ground (arith, f, h))
]

-- The digits of an article number without its check digit.
abbrev pub IsNumber : ℕ → String → Type 0
IsNumber n s = (char_len s ≡ n) × (all_chars is_digit s ≡ true)

abbrev pub IsPayload : Symbology → String → String → Type 0
IsPayload ean13 s p = IsNumber 12 p
IsPayload ean8 s p = IsNumber 7 p
IsPayload upc_a s p = IsNumber 11 p
IsPayload _ s p = p ≡ s

take_chars-IsNumber :
    (n : ℕ) (s : String)
    → all_chars is_digit s ≡ true
    → n ≤ char_len s
    → IsNumber n (take_chars (min n (char_len s)) s)
take_chars-IsNumber n s d h =
    let exact : min n (char_len s) ≡ n = omega (arith, h) in
    rw exact (char_len-take_exact n s h, all-take_chars is_digit n s d)

whole-payload : (s : String) → take_chars (min (char_len s) (char_len s)) s ≡ s
whole-payload s = take_chars-all (min (char_len s) (char_len s)) s (omega arith)

-- What a printer is sent of barcode data that passed the validation: of an article number its digits
-- without the check digit, which the printer computes, and any other data as it is.
pub barcode_payload_lem :
    (symbology : Symbology) (s : String)
    → validate_barcode symbology s ≡ ok tt
    → IsPayload symbology s (barcode_payload symbology s)
unfolding barcode_payload kept_length is_barcode
barcode_payload_lem code128 s h = whole-payload s
barcode_payload_lem code39 s h = whole-payload s
barcode_payload_lem itf s h = whole-payload s
barcode_payload_lem ean13 s h =
    let v = validated ean13 s h in
    let digits : all_chars is_digit s ≡ true = ground (arith, v) in
    take_chars-IsNumber 12 s digits (ground (arith, v, byte_len-digits s digits))
barcode_payload_lem ean8 s h =
    let v = validated ean8 s h in
    let digits : all_chars is_digit s ≡ true = ground (arith, v) in
    take_chars-IsNumber 7 s digits (ground (arith, v, byte_len-digits s digits))
barcode_payload_lem upc_a s h =
    let v = validated upc_a s h in
    let digits : all_chars is_digit s ≡ true = ground (arith, v) in
    take_chars-IsNumber 11 s digits (ground (arith, v, byte_len-digits s digits))
