-- ===== src/Mock/Script.antt =====
-- A spooled job goes through its script and leaves the spooler (providers/mock/src/lib.rs).
use kiln_print.Prelude.{
  ℕ, zero, suc, ◌+◌, ◌%◌, ◌^◌, String, ◌≡◌, refl, sym, ap, ap₂, ◌∙◌, subst, true, false, Option,
  none, some, List, [], ◌∷◌, ◌++◌, arith, length, All, lookup, lookup-insert, lookup-remove, insert,
  ◌==◌, ==_iff, if◌then◌else◌,
}
use kiln_print.Error.{Message, ok}
use kiln_print.Printer.{Printer}
use kiln_print.Engine.Submit.Types.{SubmitSpec}
use kiln_print.Engine.Types.{ProviderJobState, SubmitOutcome}
use kiln_print.Mock.Laws.{IsBounded, keep_record-le}
use kiln_print.Mock.{
  spool, submit_mock, submit_as, SpooledJob, State, MockPrinter, Submission, spool_job, spool_found,
  spooled_job, find_mock, keep_record, recorded, submission, is_final, next_of, job_state, last_of,
  init_of,
}

same_key : (id : ℕ) → (id == id) ≡ true
same_key id = (==_iff id id).1 refl

chosen : {A : Type 0} (id : ℕ) (a b : A) → (if id == id then a else b) ≡ a
chosen id a b = ap (λ t. if t then a else b) (same_key id)

init_of-snoc : (xs : List ProviderJobState) (x : ProviderJobState) → init_of (xs ++ x ∷ []) ≡ xs
unfolding init_of
init_of-snoc [] x = refl
init_of-snoc (y ∷ []) x = refl
init_of-snoc (y ∷ z ∷ rest) x = ap (λ r. y ∷ r) (init_of-snoc (z ∷ rest) x)

last_of-snoc : (xs : List ProviderJobState) (x : ProviderJobState) → last_of (xs ++ x ∷ []) ≡ x
unfolding last_of
last_of-snoc [] x = refl
last_of-snoc (y ∷ []) x = refl
last_of-snoc (y ∷ z ∷ rest) x = last_of-snoc (z ∷ rest) x

module _ {P : Type 0} where
  recorded-ok :
      (o : Option (List (Submission P))) (s s' : State P) (outcome outcome' : SubmitOutcome)
      → recorded o s outcome ≡ some (s', ok outcome')
      → (s'.jobs ≡ s.jobs) × (outcome ≡ outcome')
  recorded-ok none s s' outcome outcome' h = absurd (ground (arith, h))
  recorded-ok (some kept) s s' outcome outcome' h =
      let same : record s { submissions = kept } ≡ s' = ground (arith, h) in
      (sym (ap (λ (t : State P). t.jobs) same), ground (arith, h))

  -- The entry of a job that was spooled.
  spooled_job-of :
      (p : Printer) (spec : SubmitSpec P) (s s' : State P) (id : ℕ) (m : MockPrinter)
      → spool_job p spec s ≡ some (s', ok (SubmitOutcome.spooled id))
      → find_mock s.printers p ≡ ok m
      → lookup id s'.jobs ≡ some (spooled_job p spec m.script)
  unfolding spool_job spool_found
  spooled_job-of p spec s s' id m h found =
      let next = s.next_spooler_id in
      let taken = record s {
        next_spooler_id = (next + 1) % 2 ^ 64;
        jobs = insert next (spooled_job p spec m.script) s.jobs;
      } in
      let kept = keep_record s.record_limit s.submissions (submission p spec (some next)) in
      let done : recorded kept taken (SubmitOutcome.spooled next)
          ≡ some (s', ok (SubmitOutcome.spooled id)) =
        subst (λ r. spool_found r p spec s ≡ some (s', ok (SubmitOutcome.spooled id))) found h in
      let (jobs, outcome) =
        recorded-ok kept taken s' (SubmitOutcome.spooled next) (SubmitOutcome.spooled id) done in
      let same : next ≡ id = ground (arith, outcome) in
      ap (λ m'. lookup id m') jobs
      ∙ ap (λ i. lookup i taken.jobs) (sym same)
      ∙ lookup-insert next next (spooled_job p spec m.script) s.jobs
      ∙ chosen next (some (spooled_job p spec m.script)) (lookup next s.jobs)

  -- The answers to `n` polls of a job, one after another, and the state after them.
  unfoldable pub poll : ℕ → ℕ → State P → List ProviderJobState × State P
  unfolding job_state
  poll zero id s = ([], s)
  poll (suc n) id s =
      let (s', answer) = job_state id s in
      let (answers, s'') = poll n id s' in (answer ∷ answers, s'')

  -- One poll of a job that is in the spooler.
  job_state-final :
      (id : ℕ) (s : State P) (j : SpooledJob)
      → lookup id s.jobs ≡ some j
      → is_final (next_of j).0 ≡ true
      → ((job_state id s).1 ≡ (next_of j).0) × (lookup id (job_state id s).0.jobs ≡ none)
  unfolding job_state
  job_state-final id s j h f =
      rw (h, f, job_state) (refl, lookup-remove id id s.jobs ∙ chosen id none (lookup id s.jobs))

  job_state-going :
      (id : ℕ) (s : State P) (j : SpooledJob)
      → lookup id s.jobs ≡ some j
      → is_final (next_of j).0 ≡ false
      → ((job_state id s).1 ≡ (next_of j).0)
        × (lookup id (job_state id s).0.jobs ≡ some (next_of j).1)
  unfolding job_state
  job_state-going id s j h f =
      rw (h, f, job_state)
        (
          refl,
          lookup-insert id id (next_of j).1 s.jobs
              ∙ chosen id (some (next_of j).1) (lookup id s.jobs),
        )

  -- A job whose script does not end before its last state answers all of it, and is gone.
  poll-script :
      (id : ℕ) (printer : String) (name : Message) (rest : List ProviderJobState)
      (last : ProviderJobState) (s : State P)
      → All (λ x. is_final x ≡ false) rest
      → is_final last ≡ true
      → lookup id s.jobs
        ≡ some (record { printer = printer; document_name = name; remaining = rest; last = last })
      → ((poll (suc (length rest)) id s).0 ≡ rest ++ last ∷ [])
        × (lookup id (poll (suc (length rest)) id s).1.jobs ≡ none)
  unfolding poll
  poll-script id printer name [] last s h f e =
      let (answer, left) = job_state-final id s _ e f in (ap (λ x. x ∷ []) answer, left)
  poll-script id printer name (x ∷ rest) last s h f e =
      let (answer, left) = job_state-going id s _ e h.0 in
      let (answers, gone) = poll-script id printer name rest last (job_state id s).0 h.1 f left in
      (
        ap (λ y. y ∷ (poll (suc (length rest)) id (job_state id s).0).0) answer
            ∙ ap (λ ys. x ∷ ys) answers,
        gone,
      )

  spool_found-kept :
      (p : Printer) (spec : SubmitSpec P) (s : State P) (m : MockPrinter)
      (kept : List (Submission P))
      → keep_record s.record_limit s.submissions (submission p spec (some s.next_spooler_id))
        ≡ some kept
      → spool_found (ok m) p spec s
        ≡ some (
          record s {
            next_spooler_id = (s.next_spooler_id + 1) % 2 ^ 64;
            jobs = insert s.next_spooler_id (spooled_job p spec m.script) s.jobs;
            submissions = kept;
          },
          ok (SubmitOutcome.spooled s.next_spooler_id),
        )
  unfolding spool_found
  spool_found-kept p spec s m kept e = rw e refl

  spool_job-script :
      (p : Printer) (spec : SubmitSpec P) (s s' : State P) (id : ℕ) (m : MockPrinter)
      (before : List ProviderJobState) (last : ProviderJobState)
      → spool_job p spec s ≡ some (s', ok (SubmitOutcome.spooled id))
      → find_mock s.printers p ≡ ok m
      → m.script ≡ before ++ last ∷ []
      → All (λ x. is_final x ≡ false) before
      → is_final last ≡ true
      → ((poll (suc (length before)) id s').0 ≡ m.script)
        × (lookup id (poll (suc (length before)) id s').1.jobs ≡ none)
  unfolding spooled_job
  spool_job-script p spec s s' id m before last h found script going final =
      let entry = spooled_job-of p spec s s' id m h found in
      let remaining : init_of m.script ≡ before = ap init_of script ∙ init_of-snoc before last in
      let ends : last_of m.script ≡ last = ap last_of script ∙ last_of-snoc before last in
      let (answers, gone) = poll-script id p.name spec.document_name before last s' going final (
        entry
        ∙ ap₂
            (λ r l. some (record {
              printer = p.name;
              document_name = spec.document_name;
              remaining = r;
              last = l;
            }))
            remaining ends) in
      (answers ∙ sym script, gone)

  -- The printer is there and spools what it gets, and its record has room.
  spool_job-spools :
      (p : Printer) (spec : SubmitSpec P) (s : State P) (m : MockPrinter)
      → IsBounded s
      → find_mock s.printers p ≡ ok m
      → (s' : State P) × (id : ℕ) × (spool_job p spec s ≡ some (s', ok (SubmitOutcome.spooled id)))
  unfolding spool_job
  spool_job-spools p spec s m h found =
      let entry = submission p spec (some s.next_spooler_id) in
      let (kept, e, le) = keep_record-le s.record_limit s.submissions entry h.0 h.1 in
      subst
        (λ r.
          (s' : State P) × (id : ℕ) × (spool_found r p spec s
            ≡ some (s', ok (SubmitOutcome.spooled id))))
        (sym found) (_, s.next_spooler_id, spool_found-kept p spec s m kept e)

  -- A document that is submitted to an online printer that spools is spooled, if the record of
  -- submissions has room; if only the last state of the printer's script is final, the polls of the
  -- job answer the script from its start to its end, and then the job is no longer in the spooler.
  pub submit_mock-script :
      (others : State P → State P) (p : Printer) (spec : SubmitSpec P) (s : State P)
      (m m' : MockPrinter) (before : List ProviderJobState) (last : ProviderJobState)
      → find_mock s.printers p ≡ ok m
      → m.online ≡ true
      → m.behavior ≡ spool
      → IsBounded (others s)
      → find_mock (others s).printers p ≡ ok m'
      → m'.script ≡ before ++ last ∷ []
      → All (λ x. is_final x ≡ false) before
      → is_final last ≡ true
      → (s' : State P) × (id : ℕ) × (submit_mock others p spec s
          ≡ some (s', ok (SubmitOutcome.spooled id)))
        × ((poll (suc (length before)) id s').0 ≡ m'.script)
        × (lookup id (poll (suc (length before)) id s').1.jobs ≡ none)
  unfolding submit_mock submit_as
  submit_mock-script others p spec s m m' before last found on spools room found' script going
        final =
      let (s', id, spooled) = spool_job-spools p spec (others s) m' room found' in
      let (answers, gone) =
        spool_job-script p spec (others s) s' id m' before last spooled found' script going final in
      let submitted : submit_mock others p spec s ≡ some (s', ok (SubmitOutcome.spooled id)) =
        rw (found, on, spools, submit_mock) spooled in
      (s', id, submitted, answers, gone)
