-- ===== src/Agent/Prints/Requests/Bounds.antt =====
-- The size of requests that need no source against the limit (agent/src/api/wire.rs).
use kiln_print.Prelude.{
  ℕ, ◌≡◌, refl, sym, subst, ◌≤◌, ◌⊎◌, inl, inr, String, ◌||◌, arith, ltb, str_eq, if◌then◌else◌,
  Bool-cases, to_ascii_uppercase,
}
use kiln_print.Error.{PrintError, Message, Result, ok, err, chain-ok, ◌>>=◌}
use kiln_print.Engine.Submit.Types.{PrinterSelector}
use kiln_print.Engine.Submit.Checks.{byte_len}
use kiln_print.Agent.Wire.{selector}
use kiln_print.Agent.Prints.{
  Decoders, decode, Contents, Document, raw_document, text_document, html_document, label_document,
  receipt_document, dot_matrix_document, size_bytes, PrintRequest, PrintParams,
}
use kiln_print.Agent.Prints.Decoding.{decode_lem}
use kiln_print.Agent.Prints.Requests.{
  RawPrintParams, TextPrintParams, HtmlPrintParams, request_for, request_of, raw_request,
  text_request, html_request, structured, PendingRequest, TypedPrint, ready, pending, Readers, read,
  as_ready, as_pending, pdf_pending, image_pending, label_request, receipt_request,
  dot_matrix_request, typed_as, into_typed,
}

module _ (k : Contents) (max_bytes : ℕ) where
  abbrev Fits : PrintRequest k → Type 0
  Fits r = size_bytes k r.document ≤ max_bytes

  request_of-document :
      (p : PrintParams) (document : Document k) (r : PrintRequest k)
      → request_of k p document ≡ ok r
      → r.document ≡ document
  unfolding request_of
  request_of-document p document r h =
      let (printer, chosen, made) =
        chain-ok (selector p.printer_id p.printer) (λ x. ok (request_for k p x document)) r h in
      ground (arith, made)

  guarded :
      (size : ℕ) (e : PrintError) (p : PrintParams) (document : Document k) (r : PrintRequest k)
      → size ≡ size_bytes k document
      → (if ltb max_bytes size then err e else request_of k p document) ≡ ok r
      → Fits r
  guarded size e p document r same h = elim (Bool-cases (ltb max_bytes size)) [
    | inl t ↦ absurd (ground (arith, t, h))
    | inr f ↦
        let whole : r.document ≡ document = request_of-document p document r (rw f at h) in
        let small : size_bytes k document ≤ max_bytes = ground (arith, f, same) in
        subst (λ d. size_bytes k d ≤ max_bytes) (sym whole) small
  ]

  abbrev raw_with : Decoders → RawPrintParams k → PrinterSelector → Result (PrintRequest k)
  raw_with d p printer = decode d p.encoding p.content max_bytes >>= λ bytes.
      ok (request_for k p.common printer (raw_document bytes p.language))

  raw_request-Fits :
      (d : Decoders) (p : RawPrintParams k) (r : PrintRequest k)
      → raw_request k d p max_bytes ≡ ok r
      → Fits r
  unfolding raw_request
  raw_request-Fits d p r h =
      let (printer, chosen, rest) =
        chain-ok (selector p.common.printer_id p.common.printer) (raw_with d p) r h in
      let (bytes, read_as, made) =
        chain-ok (decode d p.encoding p.content max_bytes)
          (λ b. ok (request_for k p.common printer (raw_document b p.language))) r rest in
      let same : ◌≡◌ {A = Document k} (raw_document bytes p.language) r.document =
        ground (arith, made) in
      subst (λ x. size_bytes k x ≤ max_bytes) same
        (decode_lem d p.encoding p.content max_bytes bytes read_as).1

  text_request-Fits :
      (p : TextPrintParams k) (r : PrintRequest k) → text_request k p max_bytes ≡ ok r → Fits r
  unfolding text_request
  text_request-Fits p r h =
      guarded (byte_len p.content) _ p.common (text_document p.content p.options) r refl h

  html_request-Fits :
      (p : HtmlPrintParams k) (r : PrintRequest k) → html_request k p max_bytes ≡ ok r → Fits r
  unfolding html_request
  html_request-Fits p r h =
      guarded (byte_len p.html) _ p.common (html_document p.html p.options) r refl h

  structured-Fits :
      (p : PrintParams) (document : Document k) (r : PrintRequest k)
      → structured k p document max_bytes ≡ ok r
      → Fits r
  unfolding structured
  structured-Fits p document r h = guarded (size_bytes k document) _ p document r refl h

  module _ {V : Type 0} (readers : Readers k V) (d : Decoders) where
    as_ready-Fits :
        {P : Type 0} (of : V → Message ⊎ P) (into : P → Result (PrintRequest k)) (v : V)
        (r : PrintRequest k)
        → ((p : P) (q : PrintRequest k) → into p ≡ ok q → Fits q)
        → as_ready k readers d max_bytes of into v ≡ ok (ready r)
        → Fits r
    as_ready-Fits {P} of into v r fits h =
        let next : P → Result (TypedPrint k) = λ p. into p >>= λ q. ok (ready q) in
        let (p, got, rest) = chain-ok (read k readers d max_bytes of v) next (ready r) h in
        let (q, made, last) = chain-ok (into p) (λ x. ok (ready x)) (ready r) rest in
        let same : q ≡ r = ground (arith, last) in subst Fits same (fits p q made)

    as_pending-not-ready :
        {P : Type 0} (of : V → Message ⊎ P) (into : P → Result (PendingRequest k)) (v : V)
        (r : PrintRequest k)
        → as_pending k readers d max_bytes of into v ≡ ok (ready r)
        → ⊥
    as_pending-not-ready {P} of into v r h =
        let next : P → Result (TypedPrint k) = λ p. into p >>= λ q. ok (pending q) in
        let (p, got, rest) = chain-ok (read k readers d max_bytes of v) next (ready r) h in
        let (q, made, last) = chain-ok (into p) (λ x. ok (pending x)) (ready r) rest in
        absurd (ground (arith, last))

    typed_as-Fits :
        (name : String) (v : V) (r : PrintRequest k)
        → typed_as k readers d max_bytes name v ≡ ok (ready r)
        → Fits r
    unfolding typed_as
    typed_as-Fits name v r h = elim (Bool-cases (str_eq name "RAW")) [
      | inl t ↦
          as_ready-Fits readers.raw_of (λ p. raw_request k d p max_bytes) v r (raw_request-Fits d)
            (rw (t, typed_as) at h)
      | inr f0 ↦ elim (Bool-cases (str_eq name "TEXT")) [
        | inl t ↦
            as_ready-Fits readers.text_of (λ p. text_request k p max_bytes) v r text_request-Fits
              (rw (f0, t, typed_as) at h)
        | inr f1 ↦ elim (Bool-cases (str_eq name "HTML")) [
          | inl t ↦
              as_ready-Fits readers.html_of (λ p. html_request k p max_bytes) v r html_request-Fits
                (rw (f0, f1, t, typed_as) at h)
          | inr f2 ↦ elim (Bool-cases (str_eq name "PDF")) [
            | inl t ↦ absurd (
                as_pending-not-ready readers.pdf_of (pdf_pending k) v r
                  (rw (f0, f1, f2, t, typed_as) at h))
            | inr f3 ↦ elim (Bool-cases (str_eq name "LABEL")) [
              | inl t ↦
                  as_ready-Fits readers.label_of (λ p. label_request k p max_bytes) v r
                    (λ p q. structured-Fits p.common (label_document p.label) q)
                    (rw (f0, f1, f2, f3, t, typed_as) at h)
              | inr f4 ↦ elim (Bool-cases (str_eq name "RECEIPT")) [
                | inl t ↦
                    as_ready-Fits readers.receipt_of (λ p. receipt_request k p max_bytes) v r
                      (λ p q. structured-Fits p.common (receipt_document p.receipt) q)
                      (rw (f0, f1, f2, f3, f4, t, typed_as) at h)
                | inr f5 ↦ elim (Bool-cases (str_eq name "DOT_MATRIX" || str_eq name "DOTMATRIX")) [
                  | inl t ↦
                      as_ready-Fits readers.dot_matrix_of (λ p. dot_matrix_request k p max_bytes) v
                        r (λ p q. structured-Fits p.common (dot_matrix_document p.document) q)
                        (rw (f0, f1, f2, f3, f4, f5, t, typed_as) at h)
                  | inr f6 ↦ elim (Bool-cases (str_eq name "IMAGE")) [
                    | inl t ↦ absurd (
                        as_pending-not-ready readers.image_of (image_pending k) v r
                          (rw (f0, f1, f2, f3, f4, f5, f6, t, typed_as) at h))
                    | inr f7 ↦
                        absurd (ground (arith, rw (f0, f1, f2, f3, f4, f5, f6, f7, typed_as) at h))
                  ]
                ]
              ]
            ]
          ]
        ]
      ]
    ]

-- A request that the parameters of `print.submit` make at once, without a source that is read later,
-- is for a document of at most the limit's bytes, whatever type the caller names and whatever its data
-- is. Requests of type PDF and IMAGE wait for their source and are not among these.
pub into_typed-bounds :
    (k : Contents) {V : Type 0} (readers : Readers k V) (d : Decoders) (max_bytes : ℕ)
    (document_type : String) (v : V) (r : PrintRequest k)
    → into_typed k readers d max_bytes document_type v ≡ ok (ready r)
    → size_bytes k r.document ≤ max_bytes
unfolding into_typed
into_typed-bounds k readers d max_bytes document_type v r h =
    typed_as-Fits k max_bytes readers d (to_ascii_uppercase document_type) v r h
