-- ===== src/Examples/Data.antt =====
-- One job at three points of its life, and the engine that holds it.
use kiln_print.Prelude.{none, some, [], ◌∷◌, Map}
use kiln_print.Job.{Job, raw, received, queued, request_accepted, spooler_accepted}
use kiln_print.Engine.Types.{Inner}

abbrev pub fresh_job : Job
fresh_job = record {
  job_id = 7;
  client_id = "lab-app";
  printer_id = none;
  printer_name = none;
  document_type = raw;
  language = some "ZPL";
  job_name = some "Label 42";
  status = received;
  delivery = request_accepted;
  copies = 1;
  size_bytes = 120;
  spooler_job_id = none;
  condition = none;
  completion = none;
  warnings = [];
  idempotency_key = some "order-42";
  created_at = 1000;
  updated_at = 1000;
  queued_at = none;
  submitted_at = none;
  started_at = none;
  completed_at = none;
  error = none;
}

abbrev pub queued_job : Job
queued_job = record fresh_job {
  printer_id = some "mock-1";
  printer_name = some "Mock Zebra";
  status = queued;
  updated_at = 1010;
  queued_at = some 1010;
}

abbrev pub spooled_job : Job
spooled_job = record queued_job {
  delivery = spooler_accepted;
  spooler_job_id = some 31;
  updated_at = 1020;
  submitted_at = some 1020;
}

abbrev pub empty : Inner (Map Job)
empty = record { repo = []; active = []; events = []; cancelling = [] }

abbrev pub holding : Job → Inner (Map Job)
holding j = record { repo = (7, j) ∷ []; active = (7, j) ∷ []; events = []; cancelling = [] }
