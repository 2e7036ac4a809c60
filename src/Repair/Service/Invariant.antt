-- ===== src/Repair/Service/Invariant.antt =====
-- What the tables of the repair package keep under every sequence of calls of WorkOrderService.
use property_community_agent.Base.{ℕ, subst, sym, transact-keeps, inl, inr, Text, transact}
use property_community_agent.Repair.Commands.{
  RequestContext, CreateWorkOrderCommand, ExecuteActionCommand, CreateReviewCommand,
}
use property_community_agent.Repair.Repository.{RepairDb}
use property_community_agent.Repair.Service.{Environment}
use property_community_agent.Repair.Service.Create.{create_work_order}
use property_community_agent.Repair.Service.Execute.{execute_action}
use property_community_agent.Repair.Service.Execute.Replays.{execute_action-ok}
use property_community_agent.Repair.Service.Reviews.{review_order}
use property_community_agent.Repair.Service.Reviews.ReviewEffects.{review_order-ok}
use property_community_agent.Repair.Service.Validity.{
  DbValid, IsFresh, create_work_order-DbValid, run_action-DbValid, run_review-DbValid,
}

-- The tables that calls of the service lead to from the given ones. A call that fails is rolled back;
-- a creation draws a fresh identifier.
pub data ReachableFrom (s : RepairDb) : RepairDb → Type 0 where
  start : ReachableFrom s s
  by_create :
      {t : RepairDb}
      → ReachableFrom s t
      → (env : Environment) (k : CreateWorkOrderCommand) (c : RequestContext) (key : Text)
      → IsFresh env.new_id t
      → ReachableFrom s (create_work_order env k c key t).1
  by_action :
      {t : RepairDb}
      → ReachableFrom s t
      → (env : Environment) (i : ℕ) (k : ExecuteActionCommand) (c : RequestContext) (key : Text)
      → ReachableFrom s (transact (execute_action env i k c key) t).1
  by_review :
      {t : RepairDb}
      → ReachableFrom s t
      → (env : Environment) (i : ℕ) (k : CreateReviewCommand) (c : RequestContext) (key : Text)
      → ReachableFrom s (transact (review_order env i k c key) t).1

action_call-DbValid :
    (env : Environment) (i : ℕ) (k : ExecuteActionCommand) (c : RequestContext) (key : Text)
    (s : RepairDb)
    → DbValid s
    → DbValid (transact (execute_action env i k c key) s).1
action_call-DbValid env i k c key s v =
    transact-keeps DbValid (execute_action env i k c key) s v (λ p e.
      elim (execute_action-ok env i k c key s {r = p} e) [
        | inl same ↦ subst DbValid (sym same) v
        | inr h ↦ run_action-DbValid env i k c key s {r = p} h v
      ])

review_call-DbValid :
    (env : Environment) (i : ℕ) (k : CreateReviewCommand) (c : RequestContext) (key : Text)
    (s : RepairDb)
    → DbValid s
    → DbValid (transact (review_order env i k c key) s).1
review_call-DbValid env i k c key s v =
    transact-keeps DbValid (review_order env i k c key) s v (λ p e.
      let (low, high, o) = review_order-ok env i k c key s {r = p} e in
      elim o [
        | inl same ↦ subst DbValid (sym same) v
        | inr h ↦ run_review-DbValid env i k c key s {r = p} h (low, high) v
      ])

-- Whatever calls of create, execute_action and create_review follow, from valid tables, failed and
-- repeated ones included: the tables stay valid.
pub ReachableFrom-DbValid : {s t : RepairDb} → ReachableFrom s t → DbValid s → DbValid t
ReachableFrom-DbValid start v = v
ReachableFrom-DbValid (by_create {t} p env k c key fresh) v =
    create_work_order-DbValid env k c key t fresh (ReachableFrom-DbValid p v)
ReachableFrom-DbValid (by_action {t} p env i k c key) v =
    action_call-DbValid env i k c key t (ReachableFrom-DbValid p v)
ReachableFrom-DbValid (by_review {t} p env i k c key) v =
    review_call-DbValid env i k c key t (ReachableFrom-DbValid p v)
