-- ===== src/Examples/Mock.antt =====
-- The scripted provider with one printer (providers/mock/src/lib.rs).
use kiln_print.Prelude.{ℕ, ◌≡◌, refl, arith, none, some, [], ◌∷◌, lookup}
use kiln_print.Error.{ok, text}
use kiln_print.Engine.Types.{ProviderJobState, SubmitOutcome}
use kiln_print.Engine.Submit.Types.{SubmitSpec, raw_payload}
use kiln_print.Mock.{
  MockPrinter, new_printer, State, with_id, keep_record, submission, submit_mock, find_mock,
}
use kiln_print.Mock.Script.{poll, submit_mock-script}
use kiln_print.Examples.Submit.{zebra}

abbrev mock_zebra : MockPrinter
mock_zebra = new_printer "Mock Zebra"

abbrev label : SubmitSpec ℕ
label = record {
  job_id = 7;
  document_name = text "Label 42" ∷ [];
  copies = 1;
  payload = raw_payload 0 (some "ZPL");
}

abbrev idle : State ℕ
idle = with_id (mock_zebra ∷ [])

submit_mock-script_example :
    (s' : State ℕ) × (id : ℕ) × (submit_mock (λ s. s) zebra label idle
      ≡ some (s', ok (SubmitOutcome.spooled id)))
    × ((poll 3 id s').0
        ≡ ProviderJobState.pending ∷ ProviderJobState.printing ∷ ProviderJobState.printed ∷ [])
    × (lookup id (poll 3 id s').1.jobs ≡ none)
unfolding find_mock
submit_mock-script_example =
    submit_mock-script (λ s. s) zebra label idle mock_zebra mock_zebra
      (ProviderJobState.pending ∷ ProviderJobState.printing ∷ []) ProviderJobState.printed refl refl
      refl (omega arith, omega arith) refl refl (refl, (refl, tt)) refl

-- A record of no submissions at all cannot drop its oldest entry.
no_room : keep_record 0 [] (submission zebra label none) ≡ none
unfolding keep_record
no_room = refl
