-- ===== src/Engine/Submit/Bytes.antt =====
-- What `submit` of print-core/src/engine/mod.rs does to the byte budget of print-core/src/queue.rs.
use kiln_print.Prelude.{
  ℕ, ◌<◌, String, refl, ap, ◌∙◌, ◌⊎◌, inl, inr, Option, none, some, [], ◌∷◌, ◌++◌, arith,
  Option-cases,
}
use kiln_print.Error.{Result, ok, err, Result-cases}
use kiln_print.Job.{Job}
use kiln_print.Repository.{JobRepository}
use kiln_print.Budget.{try_reserve, u64_mod}
use kiln_print.Budget.Interleaving.{try_reserve_exact}
use kiln_print.Queues.{sender_for}
use kiln_print.Engine.Types.{Change}
use kiln_print.Engine.Changes.{queue_change, fail_change}
use kiln_print.Engine.{track}
use kiln_print.Engine.Submit.Types.{
  EngineConfig, Submitter, PrintRequest, Prepared, Services, QueuedJob, Agent,
}
use kiln_print.Engine.Submit.Pools.{Awaits}
use kiln_print.Engine.Submit.Prepare.{change, prepare}
use kiln_print.Engine.Submit.Laws.{prepare-keeps}
use kiln_print.Engine.Submit.{
  Channels, Sent, accepted, full, shut, new_job, drop_reservation, settle_item, send,
  queue_reserved, enqueue, refuse, carry_out, start, gate, checked_key, submit,
}
use kiln_print.Engine.Submit.Accounts.{
  Same, Handed, Holds, Leaves, Same-trans, Leaves-Keeps, Handed-Same, release-lem,
  limit-try_reserve,
}

module _ {R S C P F : Type 0} (repository : JobRepository R) (channels : Channels S)
    (services : Services C P F) (config : EngineConfig) (who : Submitter) (request : PrintRequest C)
    (id : ℕ) (w : Awaits R S P) (l : Leaves w) where
  change-Same :
      (a : Agent R S P) (c : Change) (b : Agent R S P)
      → Same a b
      → Same a (change repository services config who request id w c b).0
  unfolding change
  change-Same a c b p = record { used = p.used; limit = p.limit; handed = p.handed }

  change-Holds :
      (size : ℕ) (a : Agent R S P) (c : Change) (b : Agent R S P)
      → Holds size a b
      → Holds size a (change repository services config who request id w c b).0
  unfolding change
  change-Holds size a c b p = record {
    used = p.used;
    limit = p.limit;
    handed = p.handed;
    word = p.word;
  }

  drop-Same :
      (size : ℕ) (a b : Agent R S P)
      → Holds size a b
      → Same a (drop_reservation repository channels services config who request id w size b)
  unfolding drop_reservation
  drop-Same size a b p = record {
    used = release-lem a.budget.used b.budget.used size p.used p.word;
    limit = p.limit;
    handed = p.handed;
  }

  settle_item-bytes :
      (p : Prepared P) (j : Job) (x : Sent) (a b : Agent R S P)
      → Holds p.size a b
      → Same a (settle_item repository channels services config who request id w p j x b).0
        ⊎ Handed a (settle_item repository channels services config who request id w p j x b).0
  unfolding settle_item
  settle_item-bytes p j accepted a b h =
      let item : QueuedJob P = record {
        job_id = p.job_id;
        printer = p.printer;
        spec = p.spec;
        reservation = p.size;
      } in
      inr (record {
        item = item;
        handed = ap (λ x. x ++ item ∷ []) h.handed;
        used = h.used;
        limit = h.limit;
      })
  settle_item-bytes p j full a b h = inl (drop-Same p.size a b h)
  settle_item-bytes p j shut a b h = inl (drop-Same p.size a b h)

  send-bytes :
      (p : Prepared P) (j : Job) (a b : Agent R S P)
      → Holds p.size a b
      → Same a (send repository channels services config who request id w p j b).0
        ⊎ Handed a (send repository channels services config who request id w p j b).0
  unfolding send
  send-bytes p j a b h =
      let sent = sender_for channels.is_closed channels.channel p.printer.id b.queues in
      settle_item-bytes p j (channels.try_send sent.0) a (record b { queues = sent.1 })
        (record { used = h.used; limit = h.limit; handed = h.handed; word = h.word })

  queue_reserved-bytes :
      (p : Prepared P) (a b : Agent R S P)
      → Holds p.size a b
      → Same a (queue_reserved repository channels services config who request id w p b).0
        ⊎ Handed a (queue_reserved repository channels services config who request id w p b).0
  unfolding queue_reserved
  queue_reserved-bytes p a b h =
      let c = queue_change w.t p.warnings p.language in
      let b' = (change repository services config who request id w c b).0 in
      let h' = change-Holds p.size a c b h in
      let q = l.queueing b' in
      elim (Option-cases (change repository services config who request id w c b).1) [
        | inl e ↦ rw (e, queue_reserved) (inl (drop-Same p.size a b' h'))
        | inr (m, e) ↦
            rw (e, queue_reserved)
              (send-bytes p m.job a (w.queueing b') (record {
                used = q.used ∙ h'.used;
                limit = q.limit ∙ h'.limit;
                handed = q.handed ∙ h'.handed;
                word = h'.word;
              }))
      ]

  enqueue-bytes :
      (p : Prepared P) (b : Agent R S P)
      → b.budget.limit < u64_mod
      → Same b (enqueue repository channels services config who request id w p b).0
        ⊎ Handed b (enqueue repository channels services config who request id w p b).0
  unfolding enqueue
  enqueue-bytes p b word = elim (try_reserve_exact b.budget p.size word) [
    | inl (t, fits, used, back) ↦
        rw (t, enqueue)
          (queue_reserved-bytes p b (record b { budget = (try_reserve b.budget p.size).0 })
            (record {
              used = used;
              limit = limit-try_reserve b.budget p.size;
              handed = refl;
              word = omega arith;
            }))
    | inr (f, over, same) ↦
        rw (f, enqueue) (inl (record { used = refl; limit = refl; handed = refl }))
  ]

  refuse-bytes :
      (a : Agent R S P) (r : Agent R S P × Result Job)
      → Same a r.0 ⊎ Handed a r.0
      → Same a (refuse repository channels services config who request id w r).0
        ⊎ Handed a (refuse repository channels services config who request id w r).0
  unfolding refuse change
  refuse-bytes a (b, ok j) h = h
  refuse-bytes a (b, err e) (inl p) =
      elim (Option-cases
        (change repository services config who request id w (fail_change w.t e) b).1) [
          | inl x ↦
              rw (x, refuse) (inl (record { used = p.used; limit = p.limit; handed = p.handed }))
          | inr (m, x) ↦
              rw (x, refuse) (inl (record { used = p.used; limit = p.limit; handed = p.handed }))
        ]
  refuse-bytes a (b, err e) (inr p) =
      elim (Option-cases
        (change repository services config who request id w (fail_change w.t e) b).1) [
          | inl x ↦
              rw (x, refuse)
                (inr (record { item = p.item; handed = p.handed; used = p.used; limit = p.limit }))
          | inr (m, x) ↦
              rw (x, refuse)
                (inr (record { item = p.item; handed = p.handed; used = p.used; limit = p.limit }))
        ]

  Same-or : (a b c : Agent R S P) → Same a b → Same b c ⊎ Handed b c → Same a c ⊎ Handed a c
  Same-or a b c p (inl q) = inl (Same-trans a b c p q)
  Same-or a b c p (inr q) = inr (Handed-Same a b c p q)

  carry_out-bytes :
      (a : Agent R S P) (r : Agent R S P × Result (Prepared P))
      → a.budget.limit < u64_mod
      → Same a r.0
      → Same a (carry_out repository channels services config who request id w r).0
        ⊎ Handed a (carry_out repository channels services config who request id w r).0
  unfolding carry_out
  carry_out-bytes a (b, ok p) word h =
      refuse-bytes a (enqueue repository channels services config who request id w p b)
        (Same-or a b _ h (enqueue-bytes p b (rw h.limit word)))
  carry_out-bytes a (b, err e) word h = refuse-bytes a (b, err e) (inl h)

  start-bytes :
      (a : Agent R S P)
      → a.budget.limit < u64_mod
      → Same a (start repository channels services config who request id w a).0
        ⊎ Handed a (start repository channels services config who request id w a).0
  unfolding start track
  start-bytes a word =
      let a' = record a { inner = (track repository (new_job w.t id who request) a.inner).0 } in
      elim (Result-cases (repository.insert_job a.inner.repo (new_job w.t id who request)).1) [
        | inl (u, e) ↦
            rw (e, start, track)
              (carry_out-bytes a (prepare repository services config who request id w a') word (
                prepare-keeps repository services config who request id w (Same a)
                  (Leaves-Keeps a w l) (change-Same a) a'
                  (record { used = refl; limit = refl; handed = refl })))
        | inr (x, e) ↦
            rw (e, start, track) (inl (record { used = refl; limit = refl; handed = refl }))
      ]

  gate-bytes :
      (key : Option String) (a : Agent R S P)
      → a.budget.limit < u64_mod
      → Same a (gate repository channels services config who request id w key a).0
        ⊎ Handed a (gate repository channels services config who request id w key a).0
  unfolding gate
  gate-bytes none a word = start-bytes a word
  gate-bytes (some key) a word =
      elim (Result-cases (repository.find_by_idempotency_key a.inner.repo who.client_id key)) [
        | inl (found, e) ↦ elim (Option-cases found) [
          | inl e' ↦ rw (e, gate) (rw e' (start-bytes a word))
          | inr (j, e') ↦
              rw (e, gate) (rw e' (inl (record { used = refl; limit = refl; handed = refl })))
        ]
        | inr (x, e) ↦ rw (e, gate) (inl (record { used = refl; limit = refl; handed = refl }))
      ]

  -- No path of `submit` leaks a reservation: either the bytes in use and the items handed over are as
  -- before, or exactly one more item is in a printer's channel and the bytes in use grew by its
  -- reservation. The other tasks leave the budget alone, and its limit is below 2^64.
  pub submit-bytes :
      (a : Agent R S P)
      → a.budget.limit < u64_mod
      → Same a (submit repository channels services config who request id w a).0
        ⊎ Handed a (submit repository channels services config who request id w a).0
  unfolding submit
  submit-bytes a word =
      elim (Result-cases (
        checked_key repository channels services config who request id w request.idempotency_key)) [
          | inl (u, e) ↦ rw (e, submit) (gate-bytes request.idempotency_key a word)
          | inr (x, e) ↦ rw (e, submit) (inl (record { used = refl; limit = refl; handed = refl }))
        ]
