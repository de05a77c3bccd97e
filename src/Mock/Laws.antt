-- ===== src/Mock/Laws.antt =====
-- The scripted provider keeps a bounded record of what it was sent (providers/mock/src/lib.rs).
use kiln_print.Prelude.{
  ℕ, ◌+◌, ◌≡◌, ◌≤◌, refl, Option, none, some, List, [], ◌∷◌, ◌++◌, inl, inr, arith, length,
  length-append, leb, Bool-cases,
}
use kiln_print.Error.{Result, ok, err, Result-cases}
use kiln_print.Printer.{Printer}
use kiln_print.Engine.Types.{SubmitOutcome}
use kiln_print.Engine.Submit.Types.{SubmitSpec}
use kiln_print.Mock.{
  SubmitBehavior, spool, deliver, refuse_with, delay, MockPrinter, Submission, State, find_mock,
  keep_record, submission, recorded, spool_found, spool_job, submit_as, submit_mock,
}

module _ {P : Type 0} where
  -- The record has room for one entry, and is not above its limit.
  abbrev pub IsBounded : State P → Type 0
  IsBounded s = (1 ≤ s.record_limit) × (length s.submissions ≤ s.record_limit)

  -- The call returns, and leaves a bounded record.
  abbrev pub Returns : Option (State P × Result SubmitOutcome) → Type 0
  Returns o = (s : State P) × (r : Result SubmitOutcome) × (o ≡ some (s, r)) × IsBounded s

  pub keep_record-le :
      (limit : ℕ) (xs : List (Submission P)) (x : Submission P)
      → 1 ≤ limit
      → length xs ≤ limit
      → (ys : List (Submission P)) × (keep_record limit xs x ≡ some ys) × (length ys ≤ limit)
  unfolding keep_record
  keep_record-le limit [] x h k = elim (Bool-cases (leb limit 0)) [
    | inl t ↦ absurd (ground (arith, t, h))
    | inr f ↦ rw (f, keep_record) (x ∷ [], refl, h)
  ]
  keep_record-le limit (y ∷ ys) x h k = elim (Bool-cases (leb limit (length (y ∷ ys)))) [
    | inl t ↦ rw (t, keep_record) (ys ++ x ∷ [], refl, omega (arith, k, length-append ys (x ∷ [])))
    | inr f ↦
        let below : length (y ∷ ys) + 1 ≤ limit = ground (arith, f) in
        rw (f, keep_record)
          (y ∷ (ys ++ x ∷ []), refl, omega (arith, below, length-append ys (x ∷ [])))
  ]

  recorded-Returns :
      (s t : State P) (x : Submission P) (outcome : SubmitOutcome)
      → IsBounded s
      → t.record_limit ≡ s.record_limit
      → Returns (recorded (keep_record s.record_limit s.submissions x) t outcome)
  recorded-Returns s t x outcome h same =
      let (ys, e, le) = keep_record-le s.record_limit s.submissions x h.0 h.1 in
      rw e (
        record t { submissions = ys },
        ok outcome,
        refl,
        (omega (arith, h.0, same), omega (arith, le, same)),
      )

  spool_found-Returns :
      (found : Result MockPrinter) (p : Printer) (spec : SubmitSpec P) (s : State P)
      → IsBounded s
      → Returns (spool_found found p spec s)
  unfolding spool_found
  spool_found-Returns (err e) p spec s h = (_, err e, refl, h)
  spool_found-Returns (ok m) p spec s h =
      recorded-Returns s _ (submission p spec (some s.next_spooler_id))
        (SubmitOutcome.spooled s.next_spooler_id) h refl

  submit_as-Returns :
      (behavior : SubmitBehavior) (p : Printer) (spec : SubmitSpec P) (s : State P)
      → IsBounded s
      → Returns (submit_as behavior p spec s)
  unfolding submit_as spool_job
  submit_as-Returns (refuse_with e) p spec s h = (s, err e, refl, h)
  submit_as-Returns deliver p spec s h =
      recorded-Returns s s (submission p spec none) SubmitOutcome.delivered h refl
  submit_as-Returns spool p spec s h = spool_found-Returns (find_mock s.printers p) p spec s h
  submit_as-Returns (delay t) p spec s h = spool_found-Returns (find_mock s.printers p) p spec s h

  -- While the record has room for one entry and the other calls keep it within its limit, a
  -- submission does not panic, whatever the printer does with it, and keeps the record within its
  -- limit.
  pub submit_mock-Returns :
      (others : State P → State P) (p : Printer) (spec : SubmitSpec P) (s : State P)
      → IsBounded s
      → IsBounded (others s)
      → Returns (submit_mock others p spec s)
  unfolding submit_mock
  submit_mock-Returns others p spec s h k = elim (Result-cases (find_mock s.printers p)) [
    | inr (e, f) ↦ rw (f, submit_mock) (s, err e, refl, h)
    | inl (m, f) ↦ elim (Bool-cases m.online) [
      | inl t ↦ rw (f, t, submit_mock) (submit_as-Returns m.behavior p spec (others s) k)
      | inr n ↦ rw (f, n, submit_mock) (s, _, refl, h)
    ]
  ]
