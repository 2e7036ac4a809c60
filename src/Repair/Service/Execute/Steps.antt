-- ===== src/Repair/Service/Execute/Steps.antt =====
-- `_apply_action` of repair/application/service.py as one step of the work order, and the rights that
-- a step takes, against `available_actions`.
use property_community_agent.Base.{
  ℕ, ◌≡◌, refl, sym, subst, ◌⊎◌, inl, inr, Bool, true, false, Option, Text, ok, arith, Action,
  require, ◌>>◌,
}
use property_community_agent.Repair.Enums.{
  WorkOrderStatus, processing, reworking, ActionCode, create, assign, accept, reject,
  record_progress, submit_completion, verify_pass, request_rework, submit_rework_completion,
  create_review,
}
use property_community_agent.Repair.Errors.{RepairError}
use property_community_agent.Repair.WorkOrder.{WorkOrder, touch, state_actions, is_in}
use property_community_agent.Repair.WorkOrder.Machine.{
  Edge, dispatched, accepted, rejected, completed, passed, returned, recompleted,
}
use property_community_agent.Repair.Commands.{RequestContext, has_any_role, ExecuteActionCommand}
use property_community_agent.Repair.Repository.{RepairDb}
use property_community_agent.Repair.Service.{assign_roles, denied}
use property_community_agent.Repair.Service.Queries.{available_actions}
use property_community_agent.Repair.Service.Handlers.{
  is_assignee, is_verifier, handler, apply_action, accept_order, reject_order, add_progress,
  complete,
}
use property_community_agent.Repair.Service.Execute.Handled.{Moved, Handled, with_record}
use property_community_agent.Repair.Service.Execute.Outcome.{
  accept_order-Handled, reject_order-Handled, verify-Handled, add_progress-Handled,
  complete-Handled, assign_order-Handled,
}

-- Who may take an action.
abbrev pub has_authority : ActionCode → WorkOrder → RequestContext → Bool
has_authority assign w c = has_any_role c assign_roles
has_authority verify_pass w c = is_verifier w c
has_authority request_rework w c = is_verifier w c
has_authority create w c = false
has_authority create_review w c = false
has_authority _ w c = is_assignee w c

available_edge :
    {s t : WorkOrderStatus} {a : ActionCode} (w : WorkOrder) (c : RequestContext)
    → Edge s a t
    → w.status ≡ s
    → has_authority a w c ≡ true
    → is_in a (available_actions w c) ≡ true
unfolding available_actions is_assignee is_verifier
available_edge w c dispatched e h = ground arith
available_edge w c accepted e h = ground arith
available_edge w c rejected e h = ground arith
available_edge w c completed e h = ground arith
available_edge w c passed e h = ground arith
available_edge w c returned e h = ground arith
available_edge w c recompleted e h = ground arith

available_progress :
    (w : WorkOrder) (c : RequestContext)
    → (w.status ≡ processing) ⊎ (w.status ≡ reworking)
    → is_assignee w c ≡ true
    → is_in record_progress (available_actions w c) ≡ true
unfolding available_actions is_assignee
available_progress w c (inl e) h = ground arith
available_progress w c (inr e) h = ground arith

-- A step that was taken could be taken by its actor.
available :
    (a : ActionCode) (w w' : WorkOrder) (c : RequestContext)
    → Moved a w w'
    → has_authority a w c ≡ true
    → is_in a (available_actions w c) ≡ true
available a w w' c m h = elim m.edge [
  | inl e ↦ available_edge w c e refl h
  | inr (d, _, k) ↦
      subst (λ (x : ActionCode). is_in x (available_actions w c) ≡ true) (sym d)
        (available_progress w c k (subst (λ (x : ActionCode). has_authority x w c ≡ true) d h))
]

under_way :
    (w : WorkOrder)
    → is_in record_progress (state_actions w) ≡ true
    → (w.status ≡ processing) ⊎ (w.status ≡ reworking)
unfolding state_actions
under_way w h = ground arith

touch-Moved :
    (now : ℕ) (w : WorkOrder)
    → is_in record_progress (state_actions w) ≡ true
    → Moved record_progress w (touch now w)
touch-Moved now w h = record {
  same_id = refl;
  same_community = refl;
  same_review = refl;
  next_version = refl;
  edge = inr (refl, refl, under_way w h);
  valid = λ v. record {
    closed_dated = v.closed_dated;
    dated_closed = v.dated_closed;
    assigned = v.assigned;
    reviewed_closed = v.reviewed_closed;
    positive = omega arith;
  };
}

guarded :
    {A : Type 0} (b : Bool) (e : RepairError) (m : Action RepairDb RepairError A) (s : RepairDb)
    {r : A × RepairDb}
    → (require b e >> m) s ≡ ok r
    → (b ≡ true) × (m s ≡ ok r)
guarded true e m s h = (refl, h)
guarded false e m s h = cc

Step :
    ActionCode
    → WorkOrder
    → RequestContext
    → RepairDb
    → (Option Text × WorkOrder) × RepairDb
    → Type 0
Step a w c s r = Handled a w s r × (has_authority a w c ≡ true)

progress-Step :
    (w : WorkOrder) (k : ExecuteActionCommand) (c : RequestContext) (now : ℕ) (s : RepairDb)
    {r : (Option Text × WorkOrder) × RepairDb}
    → k.action ≡ record_progress
    → add_progress w k c now s ≡ ok r
    → Handled record_progress w s r
progress-Step w k c now s {r} e h =
    let (listed, t, rows, d) = add_progress-Handled w k c now s h in
    subst (Handled record_progress w s) (sym d) (
      touch-Moved now w (subst (λ (x : ActionCode). is_in x (state_actions w) ≡ true) e listed),
      with_record s rows,
    )

handler-Step :
    (a : ActionCode) (w : WorkOrder) (k : ExecuteActionCommand) (c : RequestContext) (now : ℕ)
    (s : RepairDb) {r : (Option Text × WorkOrder) × RepairDb}
    → k.action ≡ a
    → handler a w k c now s ≡ ok r
    → Step a w c s r
unfolding Step
handler-Step assign w k c now s {r} e h =
    let (m, b) = assign_order-Handled w k c now s h in
    (subst (λ (x : ActionCode). Handled x w s r) e m, b)
handler-Step accept w k c now s {r} e h =
    let (b, h') = guarded (is_assignee w c) denied (accept_order w k c now) s h in
    (subst (λ (x : ActionCode). Handled x w s r) e (accept_order-Handled w k c now s h'), b)
handler-Step reject w k c now s {r} e h =
    let (b, h') = guarded (is_assignee w c) denied (reject_order w k c now) s h in
    (subst (λ (x : ActionCode). Handled x w s r) e (reject_order-Handled w k c now s h'), b)
handler-Step record_progress w k c now s {r} e h =
    let (b, h') = guarded (is_assignee w c) denied (add_progress w k c now) s h in
    (progress-Step w k c now s e h', b)
handler-Step submit_completion w k c now s {r} e h =
    let (b, h') = guarded (is_assignee w c) denied (complete w k c now) s h in
    (subst (λ (x : ActionCode). Handled x w s r) e (complete-Handled w k c now s h'), b)
handler-Step submit_rework_completion w k c now s {r} e h =
    let (b, h') = guarded (is_assignee w c) denied (complete w k c now) s h in
    (subst (λ (x : ActionCode). Handled x w s r) e (complete-Handled w k c now s h'), b)
handler-Step verify_pass w k c now s {r} e h =
    let (m, b) = verify-Handled w k c now s h in
    (subst (λ (x : ActionCode). Handled x w s r) e m, b)
handler-Step request_rework w k c now s {r} e h =
    let (m, b) = verify-Handled w k c now s h in
    (subst (λ (x : ActionCode). Handled x w s r) e m, b)
handler-Step create w k c now s e h = cc
handler-Step create_review w k c now s e h = cc

-- A handler that succeeds has moved the order one version on, along an edge of the state machine or
-- by a progress record under way, kept it valid, touched no table but the process records, and its
-- actor could see the action in the list of available actions.
pub apply_action-Step :
    (w : WorkOrder) (k : ExecuteActionCommand) (c : RequestContext) (now : ℕ) (s : RepairDb)
    {r : (Option Text × WorkOrder) × RepairDb}
    → apply_action w k c now s ≡ ok r
    → Handled k.action w s r × (is_in k.action (available_actions w c) ≡ true)
unfolding apply_action Step
apply_action-Step w k c now s {r} h =
    let (m, b) = handler-Step k.action w k c now s {r = r} refl h in
    (m, available k.action w r.0.1 c m.0 b)
