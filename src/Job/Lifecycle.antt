-- ===== src/Job/Lifecycle.antt =====
-- The transitions of JobStatus against the diagram of docs/print-job-lifecycle.md, and what a
-- transition of print-core/src/model/job.rs does to the rest of the job.
use kiln_print.Prelude.{
  Option, if◌then◌else◌, ℕ, ◌<◌, ◌≡◌, refl, ap, ◌∙◌, ◌⊎◌, ◌↔◌, String, Bool, true, false, none,
  some, arith, eq_iff,
}
use kiln_print.Job.Status.{
  JobStatus, received, validating, queued, printing, completed, failed, cancelled, is_terminal,
  as_u8, can_transition_to, as_str, parse,
}
use kiln_print.Job.{Job, is_queued}

-- The edges of the diagram, a status that stays as it is included.
pub data Edge : JobStatus → JobStatus → Type 0 where
  validates : Edge received validating
  queues : Edge validating queued
  prints : Edge queued printing
  retires : Edge queued completed
  finishes : Edge printing completed
  fails : {a : JobStatus} → is_terminal a ≡ false → Edge a failed
  cancels : {a : JobStatus} → is_terminal a ≡ false → Edge a cancelled
  stays : {a : JobStatus} → is_terminal a ≡ false → Edge a a

Edge-of_can : (a b : JobStatus) → can_transition_to a b ≡ true → Edge a b
unfolding can_transition_to
Edge-of_can a b h =
    grind (arith, validates, queues, prints, retires, finishes, fails, cancels, stays)

can-of_Edge : {a b : JobStatus} → Edge a b → can_transition_to a b ≡ true
unfolding can_transition_to
can-of_Edge validates = refl
can-of_Edge queues = refl
can-of_Edge prints = refl
can-of_Edge retires = refl
can-of_Edge finishes = refl
can-of_Edge (fails h) = ground arith
can-of_Edge (cancels h) = ground arith
can-of_Edge (stays h) = ground arith

-- The code allows exactly the edges of the diagram.
pub can_transition_to_iff : (a b : JobStatus) → (can_transition_to a b ≡ true) ↔ Edge a b
can_transition_to_iff a b = (Edge-of_can a b, can-of_Edge)

can_transition_forward :
    (a b : JobStatus) → can_transition_to a b ≡ true → (a ≡ b) ⊎ (as_u8 a < as_u8 b)
unfolding can_transition_to
can_transition_forward a b h = ground arith

parse-as_str : (s : JobStatus) → parse (as_str s) ≡ some s
unfolding parse as_str
parse-as_str received = refl
parse-as_str validating = refl
parse-as_str queued = refl
parse-as_str printing = refl
parse-as_str completed = refl
parse-as_str failed = refl
parse-as_str cancelled = refl

parse_sound : (v : String) (s : JobStatus) → parse v ≡ some s → v ≡ as_str s
unfolding parse as_str
parse_sound v s h = ground (
  arith,
  eq_iff v "RECEIVED",
  eq_iff v "VALIDATING",
  eq_iff v "QUEUED",
  eq_iff v "PRINTING",
  eq_iff v "COMPLETED",
  eq_iff v "FAILED",
  eq_iff v "CANCELLED",
)

-- A name is parsed to a status exactly if it is the name of that status.
pub parse_iff : (v : String) (s : JobStatus) → (parse v ≡ some s) ↔ (v ≡ as_str s)
parse_iff v s = (parse_sound v s, λ e. ap parse e ∙ parse-as_str s)

-- A time that is stamped the first time only.
abbrev pub first : Option ℕ → ℕ → Option ℕ
first none now = some now
first (some t) now = some t

abbrev pub is_printing : JobStatus → Bool
is_printing printing = true
is_printing _ = false

-- What a transition did to a job: taken along an edge, or refused.
pub data Moves (now : ℕ) (next : JobStatus) (j j' : Job) (moved : Bool) : Type 0 where
  taken :
      moved ≡ true
      → Edge j.status next
      → j'.status ≡ next
      → j'.updated_at ≡ now
      → j'.error ≡ j.error
      → j'.queued_at ≡ (if is_queued next then first j.queued_at now else j.queued_at)
      → j'.started_at ≡ (if is_printing next then first j.started_at now else j.started_at)
      → j'.completed_at ≡ (if is_terminal next then some now else j.completed_at)
      → j'.condition ≡ (if is_terminal next then none else j.condition)
      → Moves now next j j' moved
  refused : moved ≡ false → ¬ Edge j.status next → j' ≡ j → Moves now next j j' moved
