-- ===== src/Engine/Submit/Accounts.antt =====
-- The byte budget of print-core/src/queue.rs before and after a submission.
use kiln_print.Prelude.{ℕ, ◌+◌, ◌<◌, ◌≡◌, ap, ◌∙◌, [], ◌∷◌, ◌++◌, arith}
use kiln_print.Budget.{ByteBudget, try_reserve, release, u64_mod}
use kiln_print.Engine.Submit.Types.{QueuedJob, Agent}
use kiln_print.Engine.Submit.Pools.{Awaits}
use kiln_print.Engine.Submit.Laws.{Keeps}

module _ {R S P : Type 0} where
  -- The budget and the items handed over are as they were.
  pub record Same (a b : Agent R S P) : Type 0 where
    pub used : b.budget.used ≡ a.budget.used
    pub limit : b.budget.limit ≡ a.budget.limit
    pub handed : b.handed ≡ a.handed

  -- One more item was handed over, and its bytes are in use.
  pub record Handed (a b : Agent R S P) : Type 0 where
    pub item : QueuedJob P
    pub handed : b.handed ≡ a.handed ++ item ∷ []
    pub used : b.budget.used ≡ a.budget.used + item.reservation
    pub limit : b.budget.limit ≡ a.budget.limit

  -- The bytes are reserved, and nothing is handed over yet.
  pub record Holds (size : ℕ) (a b : Agent R S P) : Type 0 where
    pub used : b.budget.used ≡ a.budget.used + size
    pub limit : b.budget.limit ≡ a.budget.limit
    pub handed : b.handed ≡ a.handed
    pub word : a.budget.used + size < u64_mod

  -- The other tasks leave the budget and the items alone.
  pub record Leaves (w : Awaits R S P) : Type 0 where
    pub resolving : (a : Agent R S P) → Same a (w.resolving a)
    pub inspecting : (a : Agent R S P) → Same a (w.inspecting a)
    pub rendering : (a : Agent R S P) → Same a (w.rendering a)
    pub queueing : (a : Agent R S P) → Same a (w.queueing a)

  pub Same-trans : (a b c : Agent R S P) → Same a b → Same b c → Same a c
  Same-trans a b c p q = record {
    used = q.used ∙ p.used;
    limit = q.limit ∙ p.limit;
    handed = q.handed ∙ p.handed;
  }

  pub Leaves-Keeps : (a : Agent R S P) (w : Awaits R S P) → Leaves w → Keeps (Same a) w
  Leaves-Keeps a w l = record {
    on_resolving = λ b p. Same-trans a b (w.resolving b) p (l.resolving b);
    on_inspecting = λ b p. Same-trans a b (w.inspecting b) p (l.inspecting b);
    on_rendering = λ b p. Same-trans a b (w.rendering b) p (l.rendering b);
    on_queueing = λ b p. Same-trans a b (w.queueing b) p (l.queueing b);
  }

  pub Handed-Same : (a b c : Agent R S P) → Same a b → Handed b c → Handed a c
  Handed-Same a b c p q = record {
    item = q.item;
    handed = q.handed ∙ ap (λ x. x ++ q.item ∷ []) p.handed;
    used = q.used ∙ ap (λ x. x + q.item.reservation) p.used;
    limit = q.limit ∙ p.limit;
  }

pub release-lem : (u v size : ℕ) → v ≡ u + size → u + size < u64_mod → release v size ≡ u
unfolding release
release-lem u v size e word = ground arith

pub limit-try_reserve : (b : ByteBudget) (size : ℕ) → (try_reserve b size).0.limit ≡ b.limit
unfolding try_reserve
limit-try_reserve b size = ground arith
