-- ===== src/Label/Epl/Expressible.antt =====
-- What EPL cannot express is refused (`encode` of protocols/src/label/epl.rs).
use kiln_print.Prelude.{ℕ, ◌≡◌, ◌↔◌, refl, String, List, [], ◌∷◌, All, arith, inl, inr}
use kiln_print.Error.{Result, ok, Result-cases}
use kiln_print.Label.{
  Floats, LabelElement, text_element, barcode_element, qr_element, data_matrix_element, box_element,
  raw_element, LabelDocument,
}
use kiln_print.Label.Epl.{quoted, with_text, epl_element, epl_body, epl_encode}

-- An element other than a Data Matrix code, whose text the printer's code page has.
abbrev pub IsExpressible : {F : Type 0} → (String → Result (List ℕ)) → LabelElement F → Type 0
IsExpressible encode_text (text_element x y content height rotation font) =
    (bytes : List ℕ) × (encode_text (quoted content) ≡ ok bytes)
IsExpressible encode_text (qr_element x y content magnification level) =
    (bytes : List ℕ) × (encode_text (quoted content) ≡ ok bytes)
IsExpressible encode_text (data_matrix_element x y content size) = ⊥
IsExpressible encode_text _ = Unit {0}

Succeeds : {A : Type 0} → Result A → Type 0
Succeeds {A} r = (a : A) × (r ≡ ok a)

module _ {F : Type 0} (floats : Floats F) (encode_text : String → Result (List ℕ))
    (label : LabelDocument F) where
  with_text-Succeeds :
      (parts : List String) (content : String)
      → Succeeds (with_text floats encode_text label parts content)
        ↔ ((bytes : List ℕ) × (encode_text (quoted content) ≡ ok bytes))
  unfolding Succeeds
  with_text-Succeeds parts content = elim (Result-cases (encode_text (quoted content))) [
    | inl (bytes, e) ↦ (λ s. (bytes, e), λ h. rw e (_, refl))
    | inr (x, e) ↦ (λ s. absurd (ground (arith, e, s.1)), λ h. absurd (ground (arith, e, h.1)))
  ]

  element-Succeeds :
      (e : LabelElement F)
      → Succeeds (epl_element floats encode_text label e) ↔ IsExpressible encode_text e
  unfolding epl_element Succeeds
  element-Succeeds (text_element x y content height rotation font) = with_text-Succeeds _ content
  element-Succeeds (barcode_element x y symbology content height bars readable rotation) =
      (λ s. tt, λ h. (_, refl))
  element-Succeeds (qr_element x y content magnification level) = with_text-Succeeds _ content
  element-Succeeds (data_matrix_element x y content size) =
      (λ s. absurd (ground (arith, s.1)), λ h. absurd h)
  element-Succeeds (box_element x y width height thickness) = (λ s. tt, λ h. (_, refl))
  element-Succeeds (raw_element content) = (λ s. tt, λ h. (_, refl))

  body-Succeeds :
      (es : List (LabelElement F))
      → Succeeds (epl_body floats encode_text label es) ↔ All (IsExpressible encode_text) es
  unfolding epl_body Succeeds
  body-Succeeds [] = (λ s. tt, λ h. (_, refl))
  body-Succeeds (e ∷ es) = elim (Result-cases (epl_element floats encode_text label e)) [
    | inr (x, f) ↦ (
      λ s. absurd (ground (arith, f, s.1)),
      λ h. absurd (ground (arith, f, ((element-Succeeds e).1 h.0).1)),
    )
    | inl (command, f) ↦ elim (Result-cases (epl_body floats encode_text label es)) [
      | inr (x, g) ↦ (
        λ s. absurd (ground (arith, f, g, s.1)),
        λ h. absurd (ground (arith, g, ((body-Succeeds es).1 h.1).1)),
      )
      | inl (rest, g) ↦ (
        λ s. ((element-Succeeds e).0 (command, f), (body-Succeeds es).0 (rest, g)),
        λ h. rw (f, g, epl_body) (_, refl),
      )
    ]
  ]

-- Where the sums of a box wrap around, a label is encoded in EPL exactly if every element can be
-- expressed: none is a Data Matrix code, and the code page has the text of every text and QR
-- code. Else the label is refused as a whole.
pub epl_encode_iff :
    {F : Type 0} (floats : Floats F) (encode_text : String → Result (List ℕ))
    (label : LabelDocument F)
    → ((bytes : List ℕ) × (epl_encode floats encode_text label ≡ ok bytes))
      ↔ All (IsExpressible encode_text) label.elements
unfolding epl_encode Succeeds
epl_encode_iff floats encode_text label =
    elim (Result-cases (epl_body floats encode_text label label.elements)) [
      | inl (body, f) ↦ (
        λ s. (body-Succeeds floats encode_text label label.elements).0 (body, f),
        λ h. rw (f, epl_encode) (_, refl),
      )
      | inr (x, f) ↦ (
        λ s. absurd (ground (arith, f, s.1)),
        λ h.
            absurd
              (ground (arith, f, ((body-Succeeds floats encode_text label label.elements).1 h).1)),
      )
    ]
