-- ===== src/Agent/Prints.antt =====
-- What a caller asks to print: the parameters of the print methods (agent/src/api/wire.rs) and the
-- documents of print-core/src/model/document.rs. Base64 and hexadecimal are libraries'. Counts of
-- bytes stay below 2^64.
pub mod Decoding
pub mod Requests
use Prim.Native.Char.{code}
use kiln_print.Prelude.{
  ℕ, ◌+◌, ◌*◌, ◌/◌, ◌⊎◌, inl, inr, String, Option, none, some, List, [], ◌∷◌, length, ltb, leb,
  str_eq, if◌then◌else◌, unwrap_or, to_ascii_uppercase, bytes_of, ◌||◌, Bool,
}
use kiln_print.Error
use kiln_print.Error.{
  PrintError, Result, ok, err, map_err, text, number, Message, invalid_payload_error, with_details,
  payload_too_large, unsupported_document, ◌>>=◌,
}
use kiln_print.Job
use kiln_print.Job.{DocumentType}
use kiln_print.Engine.Submit.Types.{PrinterSelector}
use kiln_print.Engine.Submit.Checks.{byte_len}
use kiln_print.Agent.Wire.{selector}

pub data DataEncoding : Type 0 where
  base64 hex utf8 latin1 : DataEncoding

-- What the libraries make of a text.
pub record Decoders : Type 0 where
  pub from_base64 : String → Message ⊎ List ℕ
  pub from_hex : String → Message ⊎ List ℕ

unfoldable pub too_large : ℕ → ℕ → PrintError
unfolding Error.new with_details
too_large size limit =
    with_details
      (Error.new payload_too_large
        (text "document exceeds the " ∷ number limit ∷ text "-byte limit" ∷ []))
      (("sizeBytes", number size) ∷ ("limitBytes", number limit) ∷ [])

abbrev pub estimate : DataEncoding → String → ℕ
estimate base64 s = byte_len s / 4 * 3
estimate hex s = byte_len s / 2
estimate utf8 s = byte_len s
estimate latin1 s = byte_len s

-- The message names the character in hexadecimal.
unfoldable pub from_latin1 : String → Result (List ℕ)
unfolding invalid_payload_error
from_latin1 String.[] = ok []
from_latin1 (String.◌∷◌ c s) = do
  b ←
      if leb (code c) 255
      then ok (code c)
      else err (
          invalid_payload_error
            (text "character U+" ∷ number (code c) ∷ text " does not fit latin1 encoding" ∷ []))
  rest ← from_latin1 s
  ok (b ∷ rest)

abbrev decoded : String → Message ⊎ List ℕ → Result (List ℕ)
unfolding invalid_payload_error
decoded what (inl m) = err (invalid_payload_error (text what ∷ m))
decoded what (inr bytes) = ok bytes

module _ (decoders : Decoders) where
  unfoldable pub decode_bytes : DataEncoding → String → Result (List ℕ)
  unfolding invalid_payload_error from_latin1 bytes_of
  decode_bytes base64 s = decoded "data is not valid base64: " (decoders.from_base64 s)
  decode_bytes hex s = decoded "data is not valid hex: " (decoders.from_hex s)
  decode_bytes utf8 s = ok (bytes_of s)
  decode_bytes latin1 s = from_latin1 s

  unfoldable pub within_limit : ℕ → List ℕ → Result (List ℕ)
  unfolding too_large
  within_limit max_bytes bytes =
      if ltb max_bytes (length bytes) then err (too_large (length bytes) max_bytes) else ok bytes

  unfoldable pub decode : DataEncoding → String → ℕ → Result (List ℕ)
  unfolding decode_bytes too_large within_limit
  decode encoding s max_bytes =
      if ltb (max_bytes + 3) (estimate encoding s)
      then err (too_large (estimate encoding s) max_bytes)
      else do bytes ← decode_bytes encoding s; within_limit max_bytes bytes

-- The options of each document type, and the documents that are structured data.
pub record Contents : Type 1 where
  pub TextOptions : Type 0
  pub PdfOptions : Type 0
  pub HtmlOptions : Type 0
  pub ImageOptions : Type 0
  pub Label : Type 0
  pub Receipt : Type 0
  pub DotMatrix : Type 0
  pub label_size : Label → ℕ
  pub receipt_size : Receipt → ℕ
  pub dot_matrix_size : DotMatrix → ℕ
  pub label_language : Label → Option String

module _ (k : Contents) where
  open k use {TextOptions, PdfOptions, HtmlOptions, ImageOptions, Label, Receipt, DotMatrix}

  pub data Document : Type 0 where
    raw_document : List ℕ → Option String → Document
    text_document : String → TextOptions → Document
    pdf_document : List ℕ → PdfOptions → Document
    html_document : String → HtmlOptions → Document
    image_document : List ℕ → ImageOptions → Document
    label_document : Label → Document
    receipt_document : Receipt → Document
    dot_matrix_document : DotMatrix → Document

  abbrev pub document_type : Document → DocumentType
  document_type (raw_document b l) = DocumentType.raw
  document_type (text_document t o) = DocumentType.text
  document_type (pdf_document b o) = DocumentType.pdf
  document_type (html_document t o) = DocumentType.html
  document_type (image_document b o) = DocumentType.image
  document_type (label_document d) = DocumentType.label
  document_type (receipt_document d) = DocumentType.receipt
  document_type (dot_matrix_document d) = DocumentType.dot_matrix

  abbrev pub size_bytes : Document → ℕ
  size_bytes (raw_document b l) = length b
  size_bytes (text_document t o) = byte_len t
  size_bytes (pdf_document b o) = length b
  size_bytes (html_document t o) = byte_len t
  size_bytes (image_document b o) = length b
  size_bytes (label_document d) = k.label_size d
  size_bytes (receipt_document d) = k.receipt_size d
  size_bytes (dot_matrix_document d) = k.dot_matrix_size d

  abbrev pub language : Document → Option String
  language (raw_document b l) = l
  language (label_document d) = k.label_language d
  language _ = none

  pub record PrintRequest : Type 0 where
    pub printer : PrinterSelector
    pub document : Document
    pub copies : ℕ
    pub job_name : Option String
    pub idempotency_key : Option String

-- The fields that the parameters of every print method have.
pub record PrintParams : Type 0 where
  pub printer_id : Option String
  pub printer : Option String
  pub copies : Option ℕ
  pub job_name : Option String
  pub idempotency_key : Option String

pub data SourceSpec : Type 0 where
  inline : String → DataEncoding → SourceSpec
  path : String → SourceSpec
  url : String → SourceSpec

unfoldable pub source_spec :
    Option String → DataEncoding → Option String → Option String → Result SourceSpec
unfolding invalid_payload_error
source_spec (some s) encoding none none = ok (inline s encoding)
source_spec none encoding (some p) none = ok (path p)
source_spec none encoding none (some u) = ok (url u)
source_spec _ encoding _ _ =
    err (invalid_payload_error (text "give exactly one of data, path or url" ∷ []))
