-- ===== src/Engine/Submit/Prepare.antt =====
-- `PrintEngine::prepare` of print-core/src/engine/mod.rs, from the new job to its rendered payload.
use kiln_print.Prelude.{
  ℕ, String, Bool, true, not, ◌&&◌, Option, none, some, List, [], ◌∷◌, any, keep, lookup,
  if◌then◌else◌,
}
use kiln_print.Error
use kiln_print.Error.{
  PrintError, Result, ok, err, Value, Message, text, texts, uuid, internal, with_printer,
  with_details, invalid_payload_error, access_denied, unsupported_document, unsupported_operation,
}
use kiln_print.Printer.{Printer}
use kiln_print.Repository.{JobRepository}
use kiln_print.Engine.Types.{Mutated, Change}
use kiln_print.Engine.Changes.{validate_change, address_change}
use kiln_print.Engine.{mutate}
use kiln_print.Engine.Submit.Types.{
  EngineConfig, Submitter, PrintRequest, all_kinds, PrintPayload, kind, debug, document_type_str,
  Prepared, Provider, Protocol, Renderer, Services, Agent,
}
use kiln_print.Engine.Submit.Checks.{allows, check_request}
use kiln_print.Engine.Submit.Pools.{blocking, Awaits, is_html, is_raw, is_nil, join, reported}

module _ {R S C P F : Type 0} (repository : JobRepository R) (services : Services C P F)
    (config : EngineConfig) (who : Submitter) (request : PrintRequest C) (id : ℕ)
    (w : Awaits R S P) where
  -- `mutate`, within the larger state.
  unfoldable pub change : Change → Agent R S P → Agent R S P × Option Mutated
  change c a = let (s, m) = mutate repository w.now id c a.inner in (record a { inner = s }, m)

  -- The name of the document in the spooler.
  abbrev pub document_name : Agent R S P → Message
  document_name a = elim (lookup id a.inner.active) [
    | none ↦ text "Kiln job " ∷ uuid id ∷ []
    | some j ↦ elim j.job_name [
      | none ↦ text "Kiln job " ∷ uuid id ∷ []
      | some name ↦ text name ∷ []
    ]
  ]

  unfoldable pub finish :
      Printer
      → Provider F
      → List String
      → Option String
      → Result (PrintPayload P)
      → Agent R S P
      → Agent R S P × Result (Prepared P)
  finish printer provider warnings language (err e) a = (a, err e)
  finish printer provider warnings language (ok payload) a =
      if provider.supports printer (kind payload)
      then (
        a,
        ok (record {
          job_id = id;
          size = request.document.size_bytes;
          warnings = warnings;
          language = reported language payload;
          spec = record {
            job_id = id;
            document_name = document_name a;
            copies = request.copies;
            payload = payload;
          };
          printer = printer;
        }),
      )
      else (
        a,
        err (
            with_printer
              (Error.new unsupported_document (
                text "printer '"
                ∷ text printer.name
                ∷ text "' cannot accept "
                ∷ text (debug (kind payload))
                ∷ text " output"
                ∷ []))
              printer.id),
      )

  unfoldable pub render :
      Printer
      → Provider F
      → List String
      → Option String
      → Renderer C P F
      → Agent R S P
      → Agent R S P × Result (Prepared P)
  unfolding finish
  render printer provider warnings language renderer a =
      if any (λ k. provider.supports printer k) renderer.output_kinds
      then elim (renderer.validate request.document) [
        | err e ↦ (a, err e)
        | ok u ↦
            finish printer provider warnings language
              (blocking w.render_pool (
                renderer.render request.document (record {
                  printer = printer;
                  accepted = keep (λ k. provider.supports printer k) all_kinds;
                  default_paper_mm =
                      if is_html request.document.document_type
                      then provider.default_paper_mm printer
                      else none;
                })))
              (w.rendering a)
      ]
      else (
        a,
        err (
            with_printer
              (Error.new unsupported_document (
                text "printer '"
                ∷ text printer.name
                ∷ text "' cannot print "
                ∷ text (document_type_str request.document.document_type)
                ∷ text " documents"
                ∷ []))
              printer.id),
      )

  unfoldable pub choose :
      Printer
      → Provider F
      → Result (List String × Option String)
      → Agent R S P
      → Agent R S P × Result (Prepared P)
  unfolding render
  choose printer provider (err e) a = (a, err e)
  choose printer provider (ok (warnings, language)) a =
      elim (services.renderer request.document.document_type) [
        | none ↦ (
          a,
          err (
              Error.new unsupported_document (
                text "document type "
                ∷ text (document_type_str request.document.document_type)
                ∷ text " is not supported by this agent"
                ∷ [])),
        )
        | some renderer ↦ render printer provider warnings language renderer a
      ]

  -- The warnings of an inspection, and the language's own name.
  unfoldable pub inspected :
      Protocol C → Result (List String) → Result (List String × Option String)
  inspected protocol (err e) = err e
  inspected protocol (ok warnings) =
      if config.strict_languages && not (is_nil warnings)
      then err (
          invalid_payload_error
            (text protocol.id ∷ text " data failed validation: " ∷ join warnings))
      else ok (warnings, some protocol.id)

  -- Only a raw document that names a language is inspected.
  unfoldable pub inspect :
      Printer → Provider F → Bool → Option String → Agent R S P → Agent R S P × Result (Prepared P)
  unfolding choose inspected
  inspect printer provider true (some name) a = elim (services.protocol name) [
    | none ↦ (
      a,
      err (
          with_details
            (invalid_payload_error (text "unknown printer language '" ∷ text name ∷ text "'" ∷ []))
            (("supportedLanguages", texts services.languages) ∷ [])),
    )
    | some protocol ↦
        choose printer provider
          (inspected protocol
            (blocking w.inspect_pool (ok (protocol.inspect request.document.content))))
          (w.inspecting a)
  ]
  inspect printer provider _ _ a = choose printer provider (ok ([], none)) a

  unfoldable pub address : Result Printer → Agent R S P → Agent R S P × Result (Prepared P)
  unfolding inspect change
  address (err e) a = (a, err e)
  address (ok printer) a =
      if allows who.printers printer
      then (let a' = (change (address_change printer.id printer.name) a).0 in
          elim (services.provider printer.provider) [
            | none ↦ (a', err internal)
            | some provider ↦
                inspect printer provider (is_raw request.document.document_type)
                  request.document.language a'
          ])
      else (
        a,
        err (
            with_printer
              (Error.new access_denied
                (text "this client is not permitted to use the requested printer" ∷ []))
              printer.id),
      )

  unfoldable pub prepare : Agent R S P → Agent R S P × Result (Prepared P)
  unfolding address change check_request
  prepare a =
      let a' = (change (validate_change w.t) a).0 in
      elim (check_request config request.document request.copies) [
        | err e ↦ (a', err e)
        | ok u ↦ address w.resolved (w.resolving a')
      ]
