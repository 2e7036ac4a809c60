-- ===== src/Repair/WorkOrder.antt =====
-- src/property_agent/repair/domain/entities.py: the work order, with the row of the table
-- `work_orders` (repair/infrastructure/models.py) as its stored part.
pub mod Machine
use property_community_agent.Base.{
  ℕ, ◌+◌, Bool, true, false, not, ◌&&◌, ◌||◌, Option, none, some, List, [], ◌∷◌, ◌++◌,
  if◌then◌else◌, Text, Result, ok, err,
}
use property_community_agent.Repair.Enums.{
  RepairCategory, Urgency, WorkOrderStatus, ActionCode, pending_assignment, pending_acceptance,
  processing, pending_verification, reworking, closed, assign, accept, reject, record_progress,
  submit_completion, verify_pass, request_rework, submit_rework_completion, create_review,
  status_eq, action_eq,
}
use property_community_agent.Repair.Errors.{RepairError, validation_error, invalid_transition}

pub record WorkOrderModel : Type 0 where
  pub id : ℕ
  pub community_id : ℕ
  pub business_no : Text
  pub house_id : ℕ
  pub reporter_id : ℕ
  pub category : RepairCategory
  pub location : Text
  pub description : Text
  pub urgency : Urgency
  pub create_idempotency_key : Text
  pub status : WorkOrderStatus
  pub assignee_id : Option ℕ
  pub version : ℕ
  pub created_at : ℕ
  pub updated_at : ℕ
  pub closed_at : Option ℕ
  pub appointment_at : Option ℕ

pub record WorkOrder : Type 0 where
  pub row : WorkOrderModel
  pub open row use *
  pub has_review : Bool

-- `TRANSITIONS`, in its order.
abbrev pub transition_table : List (WorkOrderStatus × ActionCode × WorkOrderStatus)
transition_table =
    (pending_assignment, assign, pending_acceptance)
    ∷ (pending_acceptance, accept, processing)
    ∷ (pending_acceptance, reject, pending_assignment)
    ∷ (processing, submit_completion, pending_verification)
    ∷ (pending_verification, verify_pass, closed)
    ∷ (pending_verification, request_rework, reworking)
    ∷ (reworking, submit_rework_completion, pending_verification)
    ∷ []

abbrev pub find_target :
    WorkOrderStatus
    → ActionCode
    → List (WorkOrderStatus × ActionCode × WorkOrderStatus)
    → Option WorkOrderStatus
find_target s a [] = none
find_target s a ((from, action, to) ∷ rest) =
    if status_eq from s && action_eq action a then some to else find_target s a rest

-- `TRANSITIONS.get((status, action))`.
abbrev pub target_of : WorkOrderStatus → ActionCode → Option WorkOrderStatus
target_of s a = find_target s a transition_table

abbrev pub actions_from :
    WorkOrderStatus → List (WorkOrderStatus × ActionCode × WorkOrderStatus) → List ActionCode
actions_from s [] = []
actions_from s ((from, action, _) ∷ rest) =
    let more = actions_from s rest in if status_eq from s then action ∷ more else more

abbrev pub if_cons : Bool → ActionCode → List ActionCode
if_cons true a = a ∷ []
if_cons false a = []

-- `state_actions`.
unfoldable pub state_actions : WorkOrder → List ActionCode
state_actions w =
    actions_from w.status transition_table
    ++ (if_cons (status_eq w.status processing || status_eq w.status reworking) record_progress
        ++ if_cons (status_eq w.status closed && not w.has_review) create_review)

abbrev pub is_in : ActionCode → List ActionCode → Bool
is_in a [] = false
is_in a (b ∷ bs) = action_eq a b || is_in a bs

-- The writes of `transition` once its checks have passed.
abbrev pub apply_transition : ActionCode → WorkOrderStatus → ℕ → WorkOrder → WorkOrder
apply_transition action target now w = record w {
  row = record w.row {
    assignee_id = if action_eq action reject then none else w.assignee_id;
    status = target;
    version = w.version + 1;
    updated_at = now;
    closed_at = if status_eq target closed then some now else w.closed_at;
  };
}

abbrev is_none : Option ℕ → Bool
is_none none = true
is_none (some _) = false

abbrev transition_to :
    Option WorkOrderStatus → ActionCode → ℕ → WorkOrder → Result RepairError WorkOrder
transition_to none action now w = err (invalid_transition w.status action (state_actions w))
transition_to (some target) action now w =
    if action_eq action assign && is_none w.assignee_id
    then err (validation_error "An assignee is required before assignment.")
    else ok (apply_transition action target now w)

-- `transition`.
unfoldable pub transition : ActionCode → ℕ → WorkOrder → Result RepairError WorkOrder
unfolding state_actions
transition action now w = transition_to (target_of w.status action) action now w

-- `touch`.
abbrev pub touch : ℕ → WorkOrder → WorkOrder
touch now w = record w { row = record w.row { version = w.version + 1; updated_at = now } }
