-- ===== src/Agent/Service/Laws/Queues.antt =====
-- Which printers and which documents a caller sees through agent/src/api/service.rs.
use kiln_print.Prelude.{
  ◌≡◌, ◌≢◌, ◌⊎◌, refl, sym, ap, ◌∙◌, subst, inl, inr, String, true, false, Option, none, some, List,
  [], ◌∷◌, All, All-keep, keep, map, arith, eq_iff, Bool-cases, Option-cases,
}
use kiln_print.Error.{ok, err, Result-cases, printer_not_found_error, with_printer}
use kiln_print.Job.{Job}
use kiln_print.Printer.{Printer, PrinterCapabilities}
use kiln_print.Engine.Queue.{QueueEntry, PrinterQueueSnapshot}
use kiln_print.Engine.Discovery.Resolve.{unknown}
use kiln_print.Engine.Submit.Types.{PrinterScope, everywhere, only, PrinterSelector, by_id, by_name}
use kiln_print.Engine.Submit.Checks.{allows}
use kiln_print.Agent.Security.{
  Principal, has, require, printer_scope, printers_read, queue_read, jobs_read_all,
}
use kiln_print.Agent.Task.{Task, lift, pure, bind-ok, ◌>>=◌}
use kiln_print.Agent.Service.{
  PrintEngine, own, visible, not_found, redact, redact_snapshot, list_printers, visible_printer,
  get_printer, default_printer, queue, filter_option, to_option,
}

-- An entry that shows nothing of its document but its place in the queue.
abbrev pub IsHidden : QueueEntry → Type 0
IsHidden e = (e.document_name ≡ none) × (e.status_text ≡ none) × (e.kiln_job ≡ none)

-- What is shown of an entry, the first of the two: all of it, if it is of a job of the caller's; else
-- neither the document's name, nor the text of its status, nor the job, and the rest as it is.
abbrev pub Shown : Principal → QueueEntry → QueueEntry → Type 0
Shown who e whole =
    ((e ≡ whole) × ((j : Job) × (whole.kiln_job ≡ some j) × (j.client_id ≡ who.client_id)))
    ⊎ (((j : Job) → whole.kiln_job ≡ some j → j.client_id ≢ who.client_id)
        × IsHidden e
        × ((e.spooler_job_id ≡ whole.spooler_job_id)
            × (e.status ≡ whole.status)
            × (e.position ≡ whole.position)
            × (e.size_bytes ≡ whole.size_bytes)))

-- Entry by entry.
abbrev pub AllShown : Principal → List QueueEntry → List QueueEntry → Type 0
AllShown who [] [] = Unit {0}
AllShown who [] (whole ∷ rest) = ⊥
AllShown who (e ∷ es) [] = ⊥
AllShown who (e ∷ es) (whole ∷ rest) = Shown who e whole × AllShown who es rest

-- The jobs of the caller's in a list, in their order and all of them.
pub data OwnOf (who : Principal) : List Job → List Job → Type 0 where
  none_left : OwnOf who [] []
  shows :
      {j : Job} {js all : List Job}
      → j.client_id ≡ who.client_id
      → OwnOf who js all
      → OwnOf who (j ∷ js) (j ∷ all)
  skips :
      {j : Job} {js all : List Job}
      → j.client_id ≢ who.client_id
      → OwnOf who js all
      → OwnOf who js (j ∷ all)

-- What the caller is shown of a printer's queue, which is the second.
abbrev pub ShowsOwn : Principal → PrinterQueueSnapshot → PrinterQueueSnapshot → Type 0
ShowsOwn who q whole =
    OwnOf who q.agent_queue whole.agent_queue × AllShown who q.spooler_queue whole.spooler_queue

not_own : (who : Principal) (j : Job) → own who j ≡ false → j.client_id ≢ who.client_id
not_own who j f e = cc ((eq_iff j.client_id who.client_id).1 e)

keep-own : (who : Principal) (js : List Job) → OwnOf who (keep (own who) js) js
keep-own who [] = none_left
keep-own who (j ∷ js) = elim (Bool-cases (own who j)) [
  | inl t ↦ rw (t, keep) (shows ((eq_iff j.client_id who.client_id).0 t) (keep-own who js))
  | inr f ↦ rw (f, keep) (skips (not_own who j f) (keep-own who js))
]

redact_lem : (who : Principal) (e : QueueEntry) → Shown who (redact who e) e
unfolding redact
redact_lem who e = elim (Option-cases e.kiln_job) [
  | inl n ↦
      rw (n, redact)
        (inr (λ j h. absurd (ground (arith, h)), (refl, refl, refl), (refl, refl, refl, refl)))
  | inr (j, f) ↦ elim (Bool-cases (own who j)) [
    | inl t ↦ rw (f, t, redact) (inl (refl, (j, refl, (eq_iff j.client_id who.client_id).0 t)))
    | inr n ↦
        rw (f, n, redact)
          (inr (
            λ i h.
                let same : j ≡ i = ground (arith, h) in
                subst (λ (x : Job). x.client_id ≢ who.client_id) same (not_own who j n),
            (refl, refl, refl),
            (refl, refl, refl, refl),
          ))
  ]
]

map-redact : (who : Principal) (es : List QueueEntry) → AllShown who (map (redact who) es) es
map-redact who [] = tt
map-redact who (e ∷ es) = (redact_lem who e, map-redact who es)

redact_snapshot_lem :
    (who : Principal) (q : PrinterQueueSnapshot)
    → has who jobs_read_all ≡ false
    → ShowsOwn who (redact_snapshot who q) q
unfolding redact_snapshot
redact_snapshot_lem who q n =
    rw (n, redact_snapshot) (keep-own who q.agent_queue, map-redact who q.spooler_queue)

-- The capabilities of a printer do not bear on who may use it.
allows-capabilities :
    (scope : PrinterScope) (p : Printer) (c : Option PrinterCapabilities)
    → allows scope p ≡ true
    → allows scope (record p { capabilities = c }) ≡ true
allows-capabilities everywhere p c h = refl
allows-capabilities (only entries) p c h = h

visible_option :
    (who : Principal) (o : Option Printer) (p : Printer)
    → filter_option (visible who) o ≡ some p
    → visible who p ≡ true
visible_option who none p h = absurd (ground (arith, h))
visible_option who (some q) p h = elim (Bool-cases (visible who q)) [
  | inl t ↦ ground (arith, t, h)
  | inr n ↦ absurd (ground (arith, n, h))
]

module _ {S Q : Type 0} (engine : PrintEngine S Q) where
  visible_printer-visible :
      (who : Principal) (selector : PrinterSelector) (s : S) (p : Printer)
      → (visible_printer engine who selector s).1 ≡ ok p
      → visible who p ≡ true
  unfolding visible_printer
  visible_printer-visible who selector s p h =
      elim (Result-cases (engine.resolve_printer selector s).1) [
        | inr (e, f) ↦ absurd (ground (arith, f, h))
        | inl (q, f) ↦ elim (Bool-cases (visible who q)) [
          | inl t ↦ ground (arith, f, t, h)
          | inr n ↦ absurd (ground (arith, f, n, h))
        ]
      ]

  list_printers-visible :
      (who : Principal) (s : S) (ps : List Printer)
      → (list_printers engine who s).1 ≡ ok ps
      → All (λ p. visible who p ≡ true) ps
  unfolding list_printers
  list_printers-visible who s ps h =
      let shown : List Printer → Task S (List Printer) = λ all. pure (keep (visible who) all) in
      let (u, e, g) =
        bind-ok (lift (require who printers_read)) (λ u. engine.printers >>= shown) s ps h in
      let (all, e', g') = bind-ok engine.printers shown s ps g in
      subst (λ r. All (λ p. visible who p ≡ true) r) (ground (arith, g'))
        (All-keep (visible who) all)

  default_printer-visible :
      (who : Principal) (s : S) (p : Printer)
      → (default_printer engine who s).1 ≡ ok (some p)
      → visible who p ≡ true
  unfolding default_printer
  default_printer-visible who s p h =
      let shown : Option Printer → Task S (Option Printer) =
        λ found. pure (filter_option (visible who) found) in
      let (u, e, g) =
        bind-ok (lift (require who printers_read)) (λ u. engine.default_printer >>= shown) s
          (some p) h in
      let (found, e', g') = bind-ok engine.default_printer shown s (some p) g in
      visible_option who found p (ground (arith, g'))

  get_printer-visible :
      (who : Principal) (selector : PrinterSelector) (s : S) (p : Printer)
      → (get_printer engine who selector s).1 ≡ ok p
      → visible who p ≡ true
  unfolding get_printer
  get_printer-visible who selector s p h =
      let described : Printer → Task S Printer = λ q s'. (
        (engine.capabilities q.id s').0,
        ok (record q { capabilities = to_option (engine.capabilities q.id s').1 }),
      ) in
      let found : Task S Printer = visible_printer engine who selector in
      let (u, e, g) = bind-ok (lift (require who printers_read)) (λ u. found >>= described) s p h in
      let (q, e', g') = bind-ok found described s p g in
      subst (λ r. visible who r ≡ true) (ground (arith, g'))
        (allows-capabilities (printer_scope who) q
          (to_option (engine.capabilities q.id (found s).0).1)
          (visible_printer-visible who selector s q e'))

  -- Every printer that a caller is listed, gets by a selector, or gets as the default is one that the
  -- caller's configuration lets it use.
  pub printers-visible :
      (who : Principal) (selector : PrinterSelector) (s : S)
      → ((ps : List Printer)
          → (list_printers engine who s).1 ≡ ok ps
          → All (λ p. visible who p ≡ true) ps)
        × ((p : Printer) → (get_printer engine who selector s).1 ≡ ok p → visible who p ≡ true)
        × ((p : Printer) → (default_printer engine who s).1 ≡ ok (some p) → visible who p ≡ true)
  printers-visible who selector s = (
    list_printers-visible who s,
    get_printer-visible who selector s,
    default_printer-visible who s,
  )

  -- A caller without the permission to read every client's jobs is shown of the queue that the engine
  -- reports, for a printer that it may use: of the agent's jobs exactly its own, in their order; and
  -- every entry of the spooler in its place, that of a job of its own as it is, and any other without
  -- the document's name, the text of its status and the job, but with its id, status, position and size.
  pub queue_lem :
      (who : Principal) (selector : PrinterSelector) (s : S) (shown : PrinterQueueSnapshot)
      → has who jobs_read_all ≡ false
      → (queue engine who selector s).1 ≡ ok shown
      → (p : Printer) × (s' : S) × (whole : PrinterQueueSnapshot) × (visible who p ≡ true)
        × ((engine.queue p.id s').1 ≡ ok whole)
        × ShowsOwn who shown whole
  unfolding queue
  queue_lem who selector s shown n h =
      let redacted : PrinterQueueSnapshot → Task S PrinterQueueSnapshot =
        λ q. pure (redact_snapshot who q) in
      let asked : Printer → Task S PrinterQueueSnapshot = λ p. engine.queue p.id >>= redacted in
      let found : Task S Printer = visible_printer engine who selector in
      let (u, e, g) = bind-ok (lift (require who queue_read)) (λ u. found >>= asked) s shown h in
      let (p, e', g') = bind-ok found asked s shown g in
      let (whole, f, k) = bind-ok (engine.queue p.id) redacted (found s).0 shown g' in
      let same : redact_snapshot who whole ≡ shown = ground (arith, k) in
      (
        p,
        (found s).0,
        whole,
        visible_printer-visible who selector s p e',
        f,
        subst (λ q. ShowsOwn who q whole) same (redact_snapshot_lem who whole n),
      )

  -- The answer about a printer that exists outside the caller's scope: by name it is the answer about
  -- a printer that does not exist; by id it differs from it, since it does not name the id.
  pub visible_printer-hidden :
      (who : Principal) (selector : PrinterSelector) (s : S) (p : Printer)
      → (engine.resolve_printer selector s).1 ≡ ok p
      → visible who p ≡ false
      → ((name : String)
          → selector ≡ by_name name
          → (visible_printer engine who selector s).1 ≡ err (unknown (by_name name)))
        × ((id : String)
            → selector ≡ by_id id
            → (visible_printer engine who selector s).1 ≢ err (unknown (by_id id)))
  unfolding visible_printer with_printer printer_not_found_error
  visible_printer-hidden who selector s p f n =
      let hidden : (visible_printer engine who selector s).1 ≡ err (not_found selector) =
        ground (arith, f, n) in
      (
        λ name e. hidden ∙ ap (λ x. err (not_found x)) e,
        λ id e h.
            let both : err (not_found (by_id id)) ≡ err (unknown (by_id id)) =
              ap (λ x. err (not_found x)) (sym e) ∙ sym hidden ∙ h in
            absurd (ground (arith, both)),
      )
