-- ===== src/Engine/Submit/Ends.antt =====
-- A request that `submit` of print-core/src/engine/mod.rs refuses leaves no job at work.
use kiln_print.Prelude.{
  ℕ, String, ◌≡◌, sym, ap, ◌∙◌, Bool, true, false, inl, inr, Option, none, some, arith, lookup,
  lookup-insert, Bool-cases, Option-cases, if◌then◌else◌,
}
use kiln_print.Error.{PrintError, Result, ok, err, Result-cases}
use kiln_print.Job.{Job, is_terminal}
use kiln_print.Repository.{JobRepository}
use kiln_print.Budget.{try_reserve}
use kiln_print.Engine.Types.{Change}
use kiln_print.Engine.Changes.{fail_change, queue_change}
use kiln_print.Engine.Changes.Failing.{fail-FailsWith}
use kiln_print.Engine.Mutate.{mutate-Applied, mutate_inactive}
use kiln_print.Engine.{track}
use kiln_print.Engine.Submit.Types.{
  EngineConfig, Submitter, PrintRequest, Prepared, Services, Agent,
}
use kiln_print.Engine.Submit.Pools.{Awaits}
use kiln_print.Engine.Submit.Prepare.{change, prepare}
use kiln_print.Engine.Submit.Laws.{Keeps, prepare-keeps}
use kiln_print.Engine.Submit.{
  Channels, Sent, accepted, full, shut, new_job, settle_item, send, queue_reserved, enqueue, refuse,
  carry_out, start, gate, checked_key, submit,
}

-- The job `id`, if it is active, is not terminal.
abbrev pub IsOpen : {R S P : Type 0} → ℕ → Agent R S P → Type 0
IsOpen id a = (j : Job) → lookup id a.inner.active ≡ some j → is_terminal j.status ≡ false

abbrev pub is_err : {A : Type 0} → Result A → Bool
is_err (ok a) = false
is_err (err e) = true

module _ {R S C P F : Type 0} (repository : JobRepository R) (channels : Channels S)
    (services : Services C P F) (config : EngineConfig) (who : Submitter) (request : PrintRequest C)
    (id : ℕ) (w : Awaits R S P) where
  change-IsOpen :
      (c : Change) (a : Agent R S P)
      → IsOpen id a
      → IsOpen id (change repository services config who request id w c a).0
  unfolding change
  change-IsOpen c a o = elim (Option-cases (lookup id a.inner.active)) [
    | inl gone ↦ rw (mutate_inactive repository w.now id c a.inner gone) o
    | inr (before, found) ↦ λ j e.
        let (b, active) = mutate-Applied repository w.now id c a.inner found in
        elim (Bool-cases (is_terminal (c before).0.status)) [
          | inl t ↦ ground (arith, e, active, t)
          | inr f ↦
              ap (λ (x : Option Job). elim x [ none ↦ false | some x ↦ is_terminal x.status ])
                (sym e ∙ active ∙ ap (λ t. if t then none else some b.job) f)
              ∙ ap (λ (x : Job). is_terminal x.status) b.result
              ∙ f
        ]
  ]

  fail-gone :
      (e : PrintError) (a : Agent R S P)
      → IsOpen id a
      → lookup id
          (change repository services config who request id w (fail_change w.t e) a).0.inner.active
        ≡ none
  unfolding change
  fail-gone e a o = elim (Option-cases (lookup id a.inner.active)) [
    | inl gone ↦ rw (mutate_inactive repository w.now id (fail_change w.t e) a.inner gone) gone
    | inr (before, found) ↦
        let (b, active) = mutate-Applied repository w.now id (fail_change w.t e) a.inner found in
        let (told, f) = fail-FailsWith w.t e before (o before found) in
        active ∙ ap (λ k. if is_terminal k then none else some b.job) f.status
  ]

  settle_item-IsOpen :
      (p : Prepared P) (j : Job) (x : Sent) (a : Agent R S P)
      → IsOpen id a
      → IsOpen id (settle_item repository channels services config who request id w p j x a).0
  unfolding settle_item
  settle_item-IsOpen p j accepted a o = o
  settle_item-IsOpen p j full a o = o
  settle_item-IsOpen p j shut a o = o

  module _ (k : Keeps (IsOpen id) w) where
    queue_reserved-IsOpen :
        (p : Prepared P) (a : Agent R S P)
        → IsOpen id a
        → IsOpen id (queue_reserved repository channels services config who request id w p a).0
    unfolding queue_reserved send
    queue_reserved-IsOpen p a o =
        let c = queue_change w.t p.warnings p.language in
        let o' = change-IsOpen c a o in
        elim (Option-cases (change repository services config who request id w c a).1) [
          | inl e ↦ rw (e, queue_reserved) o'
          | inr (m, e) ↦
              rw (e, queue_reserved) (settle_item-IsOpen p m.job _ _ (k.on_queueing _ o'))
        ]

    enqueue-IsOpen :
        (p : Prepared P) (a : Agent R S P)
        → IsOpen id a
        → IsOpen id (enqueue repository channels services config who request id w p a).0
    unfolding enqueue
    enqueue-IsOpen p a o = elim (Bool-cases (try_reserve a.budget p.size).1) [
      | inl t ↦ rw (t, enqueue) (queue_reserved-IsOpen p _ o)
      | inr f ↦ rw (f, enqueue) o
    ]

    -- A request that is refused has no active job, whatever the answer was before `map_err`.
    refuse-gone :
        (r : Agent R S P × Result Job)
        → IsOpen id r.0
        → is_err (refuse repository channels services config who request id w r).1 ≡ true
        → lookup id (refuse repository channels services config who request id w r).0.inner.active
          ≡ none
    unfolding refuse
    refuse-gone (a, ok j) o h = ground arith
    refuse-gone (a, err e) o h =
        let gone = fail-gone e a o in
        elim (Option-cases
          (change repository services config who request id w (fail_change w.t e) a).1) [
            | inl e' ↦ rw (e', refuse) gone
            | inr (m, e') ↦ rw (e', refuse) gone
          ]

    carry_out-gone :
        (r : Agent R S P × Result (Prepared P))
        → IsOpen id r.0
        → is_err (carry_out repository channels services config who request id w r).1 ≡ true
        → lookup id
            (carry_out repository channels services config who request id w r).0.inner.active
          ≡ none
    unfolding carry_out
    carry_out-gone (a, ok p) o h = refuse-gone _ (enqueue-IsOpen p a o) h
    carry_out-gone (a, err e) o h = refuse-gone (a, err e) o h

    track-IsOpen :
        (a : Agent R S P)
        → lookup id a.inner.active ≡ none
        → IsOpen id (record a { inner = (track repository (new_job w.t id who request) a.inner).0 })
    unfolding track new_job
    track-IsOpen a fresh =
        elim (Result-cases (repository.insert_job a.inner.repo (new_job w.t id who request)).1) [
          | inl (u, e) ↦
              rw (e, track)
                (λ j found.
                  ground
                    (arith, found, lookup-insert id id (new_job w.t id who request) a.inner.active))
          | inr (x, e) ↦ rw (e, track) (λ j found. ground (arith, found, fresh))
        ]

    start-gone :
        (a : Agent R S P)
        → lookup id a.inner.active ≡ none
        → is_err (start repository channels services config who request id w a).1 ≡ true
        → lookup id (start repository channels services config who request id w a).0.inner.active
          ≡ none
    unfolding start track new_job
    start-gone a fresh =
        elim (Result-cases (repository.insert_job a.inner.repo (new_job w.t id who request)).1) [
          | inl (u, e) ↦
              let a' = record a {
                inner = (track repository (new_job w.t id who request) a.inner).0;
              } in
              rw (e, start, track)
                (carry_out-gone (prepare repository services config who request id w a') (
                  prepare-keeps repository services config who request id w (IsOpen id) k
                    (λ c b. change-IsOpen c b) a' (track-IsOpen a fresh)))
          | inr (x, e) ↦ rw (e, start, track) (λ h. rw (e, track) fresh)
        ]

    gate-gone :
        (key : Option String) (a : Agent R S P)
        → lookup id a.inner.active ≡ none
        → is_err (gate repository channels services config who request id w key a).1 ≡ true
        → lookup id (gate repository channels services config who request id w key a).0.inner.active
          ≡ none
    unfolding gate
    gate-gone none a fresh = start-gone a fresh
    gate-gone (some key) a fresh =
        elim (Result-cases (repository.find_by_idempotency_key a.inner.repo who.client_id key)) [
          | inl (found, e) ↦ elim (Option-cases found) [
            | inl e' ↦ rw (e, gate) (rw e' (start-gone a fresh))
            | inr (j, e') ↦ rw (e, gate) (rw e' (λ h. fresh))
          ]
          | inr (x, e) ↦ rw (e, gate) (λ h. fresh)
        ]

    -- A request that is refused leaves no job at work: if `submit` answers with an error, the new id
    -- is not in the table of active jobs, whatever fails on the way. The id was not in use, and the
    -- other tasks never leave the job in the table with a terminal status.
    pub submit-gone :
        (a : Agent R S P)
        → lookup id a.inner.active ≡ none
        → is_err (submit repository channels services config who request id w a).1 ≡ true
        → lookup id (submit repository channels services config who request id w a).0.inner.active
          ≡ none
    unfolding submit
    submit-gone a fresh =
        elim (Result-cases (
          checked_key repository channels services config who request id w
            request.idempotency_key)) [
              | inl (u, e) ↦ rw (e, submit) (gate-gone request.idempotency_key a fresh)
              | inr (x, e) ↦ rw (e, submit) (λ h. fresh)
            ]
