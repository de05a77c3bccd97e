-- ===== src/Examples/Prints.antt =====
-- Print parameters at concrete texts (agent/src/api/wire.rs). A JSON value is a text, and each method
-- takes it as its content.
use kiln_print.Prelude.{
  ℕ, ◌*◌, ◌≡◌, ◌≤◌, refl, arith, String, false, none, some, inl, inr, [], length, codes,
}
use kiln_print.Error.{ok, err}
use kiln_print.Engine.Submit.Checks.{byte_len}
use kiln_print.Engine.Submit.JobNames.{char_len}
use kiln_print.Engine.Submit.Types.{by_id}
use kiln_print.Agent.Hello.{parse_params}
use kiln_print.Agent.Prints.{
  utf8, latin1, Decoders, too_large, decode_bytes, decode, Contents, text_document, size_bytes,
  PrintRequest, PrintParams,
}
use kiln_print.Agent.Prints.Decoding.{decode_latin1-refused}
use kiln_print.Agent.Prints.Requests.{Readers, into_typed, text_request, request_of}
use kiln_print.Agent.Prints.Requests.Bounds.{into_typed-bounds}

abbrev no_decoders : Decoders
no_decoders = record { from_base64 = λ s. inl []; from_hex = λ s. inl [] }

abbrev contents : Contents
contents = record {
  TextOptions = ℕ;
  PdfOptions = ℕ;
  HtmlOptions = ℕ;
  ImageOptions = ℕ;
  Label = ℕ;
  Receipt = ℕ;
  DotMatrix = ℕ;
  label_size = λ n. n;
  receipt_size = λ n. n;
  dot_matrix_size = λ n. n;
  label_language = λ n. none;
}

abbrev common : PrintParams
common = record {
  printer_id = some "mock-1";
  printer = none;
  copies = none;
  job_name = none;
  idempotency_key = none;
}

abbrev readers : Readers contents String
readers = record {
  is_null = λ v. false;
  empty_object = "";
  raw_of = λ v. inr (record { common = common; content = v; encoding = utf8; language = none });
  text_of = λ v. inr (record { common = common; content = v; options = 0 });
  html_of = λ v. inr (record { common = common; html = v; options = 0 });
  pdf_of = λ v. inl [];
  image_of = λ v. inl [];
  label_of = λ v. inr (record { common = common; label = byte_len v });
  receipt_of = λ v. inr (record { common = common; receipt = byte_len v });
  dot_matrix_of = λ v. inr (record { common = common; document = byte_len v });
}

abbrev hello : PrintRequest contents
hello = record {
  printer = by_id "mock-1";
  document = text_document "hello" 0;
  copies = 1;
  job_name = none;
  idempotency_key = none;
}

into_typed-bounds_example : size_bytes contents hello.document ≤ 8
unfolding into_typed parse_params text_request request_of
into_typed-bounds_example =
    into_typed-bounds contents readers no_decoders 8 "text" "hello" hello refl

-- Ten bytes in latin1, twenty in UTF-8.
abbrev accents : String
accents = "éèêëéèêëéè"

decode_latin1-refused_example :
    (decode no_decoders latin1 accents 10 ≡ err (too_large (2 * char_len accents) 10))
    × (decode_bytes no_decoders latin1 accents ≡ ok (codes accents))
    × (length (codes accents) ≤ 10)
decode_latin1-refused_example =
    decode_latin1-refused no_decoders accents 10 refl (omega arith) (omega arith)
