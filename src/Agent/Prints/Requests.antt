-- ===== src/Agent/Prints/Requests.antt =====
-- From the parameters of a print method to a request, or to one whose document is still to be
-- fetched: `into_request`, `into_pending` and `into_typed` of agent/src/api/wire.rs. `V` is the type
-- of JSON values.
pub mod Bounds
use kiln_print.Prelude.{
  ℕ, ◌⊎◌, inl, inr, String, Option, none, some, List, [], ◌∷◌, ltb, str_eq, if◌then◌else◌,
  unwrap_or, to_ascii_uppercase, ◌||◌, Bool,
}
use kiln_print.Error
use kiln_print.Error.{Result, ok, err, text, Message, unsupported_document, ◌>>=◌}
use kiln_print.Engine.Submit.Types.{PrinterSelector}
use kiln_print.Engine.Submit.Checks.{byte_len}
use kiln_print.Agent.Wire.{selector}
use kiln_print.Agent.Hello.{parse_params}
use kiln_print.Agent.Prints.{
  DataEncoding, Decoders, too_large, decode, Contents, Document, raw_document, text_document,
  pdf_document, html_document, image_document, label_document, receipt_document,
  dot_matrix_document, size_bytes, PrintRequest, PrintParams, SourceSpec, source_spec,
}

module _ (k : Contents) where
  open k use {TextOptions, PdfOptions, HtmlOptions, ImageOptions, Label, Receipt, DotMatrix}

  pub record RawPrintParams : Type 0 where
    pub common : PrintParams
    pub content : String
    pub encoding : DataEncoding
    pub language : Option String

  pub record TextPrintParams : Type 0 where
    pub common : PrintParams
    pub content : String
    pub options : TextOptions

  pub record HtmlPrintParams : Type 0 where
    pub common : PrintParams
    pub html : String
    pub options : HtmlOptions

  pub record PdfPrintParams : Type 0 where
    pub common : PrintParams
    pub content : Option String
    pub encoding : DataEncoding
    pub path : Option String
    pub url : Option String
    pub options : PdfOptions

  pub record ImagePrintParams : Type 0 where
    pub common : PrintParams
    pub content : Option String
    pub encoding : DataEncoding
    pub path : Option String
    pub url : Option String
    pub options : ImageOptions

  pub record LabelPrintParams : Type 0 where
    pub common : PrintParams
    pub label : Label

  pub record ReceiptPrintParams : Type 0 where
    pub common : PrintParams
    pub receipt : Receipt

  pub record DotMatrixPrintParams : Type 0 where
    pub common : PrintParams
    pub document : DotMatrix

  abbrev pub request_for : PrintParams → PrinterSelector → Document k → PrintRequest k
  request_for p printer document = record {
    printer = printer;
    document = document;
    copies = unwrap_or p.copies 1;
    job_name = p.job_name;
    idempotency_key = p.idempotency_key;
  }

  unfoldable pub request_of : PrintParams → Document k → Result (PrintRequest k)
  unfolding selector
  request_of p document = do
    printer ← selector p.printer_id p.printer
    ok (request_for p printer document)

  unfoldable pub raw_request : Decoders → RawPrintParams → ℕ → Result (PrintRequest k)
  raw_request decoders p max_bytes = do
    printer ← selector p.common.printer_id p.common.printer
    bytes ← decode decoders p.encoding p.content max_bytes
    ok (request_for p.common printer (raw_document bytes p.language))

  unfoldable pub text_request : TextPrintParams → ℕ → Result (PrintRequest k)
  unfolding too_large
  text_request p max_bytes =
      if ltb max_bytes (byte_len p.content)
      then err (too_large (byte_len p.content) max_bytes)
      else request_of p.common (text_document p.content p.options)

  unfoldable pub html_request : HtmlPrintParams → ℕ → Result (PrintRequest k)
  unfolding too_large
  html_request p max_bytes =
      if ltb max_bytes (byte_len p.html)
      then err (too_large (byte_len p.html) max_bytes)
      else request_of p.common (html_document p.html p.options)

  unfoldable pub structured : PrintParams → Document k → ℕ → Result (PrintRequest k)
  unfolding too_large
  structured p document max_bytes =
      let size = size_bytes k document in
      if ltb max_bytes size then err (too_large size max_bytes) else request_of p document

  abbrev pub label_request : LabelPrintParams → ℕ → Result (PrintRequest k)
  label_request p max_bytes = structured p.common (label_document p.label) max_bytes

  abbrev pub receipt_request : ReceiptPrintParams → ℕ → Result (PrintRequest k)
  receipt_request p max_bytes = structured p.common (receipt_document p.receipt) max_bytes

  abbrev pub dot_matrix_request : DotMatrixPrintParams → ℕ → Result (PrintRequest k)
  dot_matrix_request p max_bytes = structured p.common (dot_matrix_document p.document) max_bytes

  -- A request whose document is still to be fetched.
  pub record PendingRequest : Type 0 where
    pub source : SourceSpec
    pub build : List ℕ → Document k
    pub printer : PrinterSelector
    pub copies : ℕ
    pub job_name : Option String
    pub idempotency_key : Option String

  unfoldable pub complete : PendingRequest → List ℕ → PrintRequest k
  complete p bytes = record {
    printer = p.printer;
    document = p.build bytes;
    copies = p.copies;
    job_name = p.job_name;
    idempotency_key = p.idempotency_key;
  }

  unfoldable pub pending_of :
      PrintParams → Result SourceSpec → (List ℕ → Document k) → Result PendingRequest
  pending_of p spec build = do
    source ← spec
    printer ← selector p.printer_id p.printer
    ok (record {
      source = source;
      build = build;
      printer = printer;
      copies = unwrap_or p.copies 1;
      job_name = p.job_name;
      idempotency_key = p.idempotency_key;
    })

  unfoldable pub pdf_pending : PdfPrintParams → Result PendingRequest
  unfolding pending_of source_spec
  pdf_pending p =
      pending_of p.common (source_spec p.content p.encoding p.path p.url)
        (λ bytes. pdf_document bytes p.options)

  unfoldable pub image_pending : ImagePrintParams → Result PendingRequest
  unfolding pending_of source_spec
  image_pending p =
      pending_of p.common (source_spec p.content p.encoding p.path p.url)
        (λ bytes. image_document bytes p.options)

  pub data TypedPrint : Type 0 where
    ready : PrintRequest k → TypedPrint
    pending : PendingRequest → TypedPrint

  -- What `serde_json` reads of the parameters of each method.
  pub record Readers (V : Type 0) : Type 0 where
    pub is_null : V → Bool
    pub empty_object : V
    pub raw_of : V → Message ⊎ RawPrintParams
    pub text_of : V → Message ⊎ TextPrintParams
    pub html_of : V → Message ⊎ HtmlPrintParams
    pub pdf_of : V → Message ⊎ PdfPrintParams
    pub image_of : V → Message ⊎ ImagePrintParams
    pub label_of : V → Message ⊎ LabelPrintParams
    pub receipt_of : V → Message ⊎ ReceiptPrintParams
    pub dot_matrix_of : V → Message ⊎ DotMatrixPrintParams

  module _ {V : Type 0} (readers : Readers V) (decoders : Decoders) (max_bytes : ℕ) where
    abbrev pub read : {P : Type 0} → (V → Message ⊎ P) → V → Result P
    read of v = parse_params readers.is_null readers.empty_object of v

    abbrev pub as_ready :
        {P : Type 0} → (V → Message ⊎ P) → (P → Result (PrintRequest k)) → V → Result TypedPrint
    as_ready of into v = do p ← read of v; r ← into p; ok (ready r)

    abbrev pub as_pending :
        {P : Type 0} → (V → Message ⊎ P) → (P → Result PendingRequest) → V → Result TypedPrint
    as_pending of into v = do p ← read of v; r ← into p; ok (pending r)

    unfoldable pub typed_as : String → V → Result TypedPrint
    unfolding Error.new
    typed_as name rest =
        if str_eq name "RAW"
        then as_ready readers.raw_of (λ p. raw_request decoders p max_bytes) rest
        else if str_eq name "TEXT"
        then as_ready readers.text_of (λ p. text_request p max_bytes) rest
        else if str_eq name "HTML"
        then as_ready readers.html_of (λ p. html_request p max_bytes) rest
        else if str_eq name "PDF"
        then as_pending readers.pdf_of pdf_pending rest
        else if str_eq name "LABEL"
        then as_ready readers.label_of (λ p. label_request p max_bytes) rest
        else if str_eq name "RECEIPT"
        then as_ready readers.receipt_of (λ p. receipt_request p max_bytes) rest
        else if str_eq name "DOT_MATRIX" || str_eq name "DOTMATRIX"
        then as_ready readers.dot_matrix_of (λ p. dot_matrix_request p max_bytes) rest
        else if str_eq name "IMAGE"
        then as_pending readers.image_of image_pending rest
        else err (
            Error.new unsupported_document
              (text "unknown document type '" ∷ text name ∷ text "'" ∷ []))

    unfoldable pub into_typed : String → V → Result TypedPrint
    unfolding typed_as to_ascii_uppercase
    into_typed document_type rest = typed_as (to_ascii_uppercase document_type) rest
