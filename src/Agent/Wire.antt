-- ===== src/Agent/Wire.antt =====
-- Parameters of API calls: agent/src/api/wire.rs. A UUID is parsed by a library.
use kiln_print.Prelude.{
  ℕ, String, not, Option, none, some, List, [], ◌∷◌, keep, map, str_eq, split, to_ascii_uppercase,
}
use kiln_print.Error.{Result, ok, err, ok_or, text, invalid_payload_error, ◌>>=◌}
use kiln_print.Job.{JobStatus}
use kiln_print.Job.Status.{parse}
use kiln_print.Engine.Submit.Types.{PrinterSelector, by_id, by_name}
use kiln_print.Engine.Submit.JobNames.{trim_start, trim_end}

pub record PrinterParams : Type 0 where
  pub printer_id : Option String
  pub printer : Option String

unfoldable pub selector : Option String → Option String → Result PrinterSelector
unfolding invalid_payload_error
selector (some id) none = ok (by_id id)
selector none (some name) = ok (by_name name)
selector (some id) (some name) =
    err (invalid_payload_error (text "give either printerId or printer, not both" ∷ []))
selector none none = err (invalid_payload_error (text "printerId or printer is required" ∷ []))

pub data StatusList : Type 0 where
  any_status : StatusList
  one : String → StatusList
  many : List String → StatusList

pub record JobsListParams : Type 0 where
  pub status : StatusList
  pub printer_id : Option String
  pub client_id : Option String
  pub since : Option ℕ
  pub until : Option ℕ
  pub limit : Option ℕ
  pub offset : Option ℕ

pub record JobIdParams : Type 0 where
  pub job_id : String

abbrev comma : ℕ
comma = 44

unfoldable pub raw_statuses : StatusList → List String
unfolding split
raw_statuses any_status = []
raw_statuses (one s) = split comma s
raw_statuses (many v) = v

-- The `collect` of the parsed statuses: the first that is unknown is the error.
unfoldable pub parse_all : List String → Result (List JobStatus)
unfolding parse to_ascii_uppercase invalid_payload_error
parse_all [] = ok []
parse_all (s ∷ ss) = do
  status ←
      ok_or (parse (to_ascii_uppercase s))
        (invalid_payload_error (text "unknown job status '" ∷ text s ∷ text "'" ∷ []))
  rest ← parse_all ss
  ok (status ∷ rest)

unfoldable pub parse_statuses : StatusList → Result (List JobStatus)
unfolding parse_all raw_statuses trim_start trim_end
parse_statuses status =
    parse_all
      (keep (λ s. not (str_eq s "")) (map (λ s. trim_end (trim_start s)) (raw_statuses status)))

unfoldable pub parse_job_id : (String → Option ℕ) → JobIdParams → Result ℕ
unfolding invalid_payload_error
parse_job_id parse_uuid params =
    ok_or (parse_uuid params.job_id) (invalid_payload_error (text "jobId must be a UUID" ∷ []))
