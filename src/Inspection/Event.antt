-- ===== src/Inspection/Event.antt =====
-- The security events of src/property_agent/inspection/domain/entities.py. A caller passes the moment
-- of every change.
pub mod Machine
use property_community_agent.Base.{
  ℕ, ◌+◌, String, Bool, true, false, ◌&&◌, Option, none, some, List, [], ◌∷◌, ◌==◌, if◌then◌else◌,
  is_some, Text, Result, ok, err,
}
use property_community_agent.Inspection.EventEnums.{
  EventStatus, reported, assigned, pending_review, closed, EventAction, create, assign,
  submit_disposal, grade_confirm, review_pass, return_event, EventRiskLevel, low, medium, high_risk,
  EventType, status_eq, action_eq, risk_eq,
}
use property_community_agent.Inspection.Errors.{
  InspectionError, invalid_event_transition, validation_error, handover_required,
}

pub record SecurityEvent : Type 0 where
  pub id : ℕ
  pub community_id : ℕ
  pub business_no : Text
  pub reporter_id : ℕ
  pub event_type : EventType
  pub risk_level : EventRiskLevel
  pub location : Text
  pub description : Text
  pub create_idempotency_key : Text
  pub status : EventStatus
  pub source_task_id : Option ℕ
  pub assignee_id : Option ℕ
  pub grade_confirmed_by : Option ℕ
  pub report_source : String
  pub version : ℕ
  pub created_at : ℕ
  pub updated_at : ℕ
  pub closed_at : Option ℕ

-- `EVENT_TRANSITIONS`, in its order.
abbrev pub transition_table : List (EventStatus × EventAction × EventStatus)
transition_table =
    (reported, assign, assigned)
    ∷ (assigned, submit_disposal, pending_review)
    ∷ (pending_review, review_pass, closed)
    ∷ (pending_review, return_event, assigned)
    ∷ []

abbrev pub find_target :
    EventStatus → EventAction → List (EventStatus × EventAction × EventStatus) → Option EventStatus
find_target s a [] = none
find_target s a ((from, action, to) ∷ rest) =
    if status_eq from s && action_eq action a then some to else find_target s a rest

-- `EVENT_TRANSITIONS.get((status, action))`.
abbrev pub target_of : EventStatus → EventAction → Option EventStatus
target_of s a = find_target s a transition_table

abbrev pub actions_from :
    EventStatus → List (EventStatus × EventAction × EventStatus) → List EventAction
actions_from s [] = []
actions_from s ((from, action, _) ∷ rest) =
    let more = actions_from s rest in if status_eq from s then action ∷ more else more

-- `state_actions`.
abbrev pub state_actions : SecurityEvent → List EventAction
state_actions e = actions_from e.status transition_table

-- The writes of `transition` once the target is found.
abbrev pub apply_transition : EventStatus → ℕ → SecurityEvent → SecurityEvent
apply_transition target now e = record e {
  status = target;
  version = e.version + 1;
  updated_at = now;
  closed_at = if status_eq target closed then some now else e.closed_at;
}

-- A high risk that nobody has graded yet.
abbrev pub is_ungraded : SecurityEvent → Bool
is_ungraded e =
    risk_eq e.risk_level high_risk && (if is_some e.grade_confirmed_by then false else true)

abbrev pub transition_to :
    Option EventStatus → EventAction → ℕ → SecurityEvent → Result InspectionError SecurityEvent
transition_to none action now e = err (invalid_event_transition e.status action (state_actions e))
transition_to (some target) action now e =
    if action_eq action assign && (if is_some e.assignee_id then false else true)
    then err (validation_error "A handler is required before assignment.")
    else if action_eq action review_pass && is_ungraded e
    then err handover_required
    else ok (apply_transition target now e)

-- `transition`.
unfoldable pub transition : EventAction → ℕ → SecurityEvent → Result InspectionError SecurityEvent
transition action now e = transition_to (target_of e.status action) action now e

-- `touch`.
abbrev pub touch : ℕ → SecurityEvent → SecurityEvent
touch now e = record e { version = e.version + 1; updated_at = now }
