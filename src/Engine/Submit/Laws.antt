-- ===== src/Engine/Submit/Laws.antt =====
-- What `prepare` and `submit` of print-core/src/engine/mod.rs guarantee on every path.
use kiln_print.Prelude.{
  ℕ, String, Bool, true, false, inl, inr, Option, none, some, List, [], any, Bool-cases,
  Option-cases,
}
use kiln_print.Error.{Result, ok, err, Result-cases}
use kiln_print.Printer.{Printer}
use kiln_print.Repository.{JobRepository}
use kiln_print.Engine.Types.{Change}
use kiln_print.Engine.Submit.Types.{
  EngineConfig, Submitter, PrintRequest, PrintPayload, Provider, Renderer, Services, Agent, kind,
}
use kiln_print.Engine.Submit.Checks.{allows, check_request}
use kiln_print.Engine.Submit.Pools.{Awaits}
use kiln_print.Engine.Submit.Prepare.{change, finish, render, choose, inspect, address, prepare}

-- What the awaits of a submission keep, whatever the other tasks do there.
pub record Keeps {R S P : Type 0} (Q : Agent R S P → Type 0) (w : Awaits R S P) : Type 0 where
  pub on_resolving : (a : Agent R S P) → Q a → Q (w.resolving a)
  pub on_inspecting : (a : Agent R S P) → Q a → Q (w.inspecting a)
  pub on_rendering : (a : Agent R S P) → Q a → Q (w.rendering a)
  pub on_queueing : (a : Agent R S P) → Q a → Q (w.queueing a)

module _ {R S C P F : Type 0} (repository : JobRepository R) (services : Services C P F)
    (config : EngineConfig) (who : Submitter) (request : PrintRequest C) (id : ℕ) (w : Awaits R S P)
    (Q : Agent R S P → Type 0) (k : Keeps Q w)
    (h : (c : Change) (a : Agent R S P)
      → Q a
      → Q (change repository services config who request id w c a).0) where
  finish-keeps :
      (printer : Printer) (provider : Provider F) (ws : List String) (l : Option String)
      (r : Result (PrintPayload P)) (a : Agent R S P)
      → Q a
      → Q (finish repository services config who request id w printer provider ws l r a).0
  unfolding finish
  finish-keeps printer provider ws l (err e) a q = q
  finish-keeps printer provider ws l (ok payload) a q =
      elim (Bool-cases (provider.supports printer (kind payload))) [
        | inl t ↦ rw t q
        | inr f ↦ rw f q
      ]

  render-keeps :
      (printer : Printer) (provider : Provider F) (ws : List String) (l : Option String)
      (renderer : Renderer C P F) (a : Agent R S P)
      → Q a
      → Q (render repository services config who request id w printer provider ws l renderer a).0
  unfolding render
  render-keeps printer provider ws l renderer a q =
      elim (Bool-cases (any (λ j. provider.supports printer j) renderer.output_kinds)) [
        | inl t ↦ elim (Result-cases (renderer.validate request.document)) [
          | inl (u, e) ↦
              rw t
                (rw e (finish-keeps printer provider ws l _ (w.rendering a) (k.on_rendering a q)))
          | inr (x, e) ↦ rw t (rw e q)
        ]
        | inr f ↦ rw f q
      ]

  choose-keeps :
      (printer : Printer) (provider : Provider F) (r : Result (List String × Option String))
      (a : Agent R S P)
      → Q a
      → Q (choose repository services config who request id w printer provider r a).0
  unfolding choose
  choose-keeps printer provider (err e) a q = q
  choose-keeps printer provider (ok (ws, l)) a q =
      elim (Option-cases (services.renderer request.document.document_type)) [
        | inl e ↦ rw (e, choose) q
        | inr (renderer, e) ↦ rw (e, choose) (render-keeps printer provider ws l renderer a q)
      ]

  inspect-keeps :
      (printer : Printer) (provider : Provider F) (b : Bool) (l : Option String) (a : Agent R S P)
      → Q a
      → Q (inspect repository services config who request id w printer provider b l a).0
  unfolding inspect
  inspect-keeps printer provider true (some name) a q =
      elim (Option-cases (services.protocol name)) [
        | inl e ↦ rw (e, inspect) q
        | inr (protocol, e) ↦
            rw (e, inspect) (choose-keeps printer provider _ (w.inspecting a) (k.on_inspecting a q))
      ]
  inspect-keeps printer provider true none a q = choose-keeps printer provider (ok ([], none)) a q
  inspect-keeps printer provider false none a q = choose-keeps printer provider (ok ([], none)) a q
  inspect-keeps printer provider false (some name) a q =
      choose-keeps printer provider (ok ([], none)) a q

  address-keeps :
      (r : Result Printer) (a : Agent R S P)
      → Q a
      → Q (address repository services config who request id w r a).0
  unfolding address
  address-keeps (err e) a q = q
  address-keeps (ok printer) a q = elim (Bool-cases (allows who.printers printer)) [
    | inl t ↦ elim (Option-cases (services.provider printer.provider)) [
      | inl e ↦ rw t (rw e (h _ a q))
      | inr (provider, e) ↦
          rw t (rw e (inspect-keeps printer provider _ request.document.language _ (h _ a q)))
    ]
    | inr f ↦ rw f q
  ]

  -- What the engine's changes and the awaits keep, the whole of `prepare` keeps.
  pub prepare-keeps :
      (a : Agent R S P) → Q a → Q (prepare repository services config who request id w a).0
  unfolding prepare
  prepare-keeps a q = elim (Result-cases (check_request config request.document request.copies)) [
    | inl (u, e) ↦ rw (e, prepare) (address-keeps w.resolved _ (k.on_resolving _ (h _ a q)))
    | inr (x, e) ↦ rw (e, prepare) (h _ a q)
  ]
