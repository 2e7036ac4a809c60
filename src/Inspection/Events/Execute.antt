-- ===== src/Inspection/Events/Execute.antt =====
-- `execute_event_action` of src/property_agent/inspection/application/service.py with its handlers.
pub mod Handled
pub mod Outcome
pub mod Effects
pub mod Replays
use property_community_agent.Base.{
  ℕ, String, Bool, true, false, not, ◌&&◌, ◌||◌, Option, none, some, List, [], ◌∷◌, ◌++◌, ◌==◌,
  if◌then◌else◌, str_append, is_id, Text, Result, ok, err, Action, ◌>>=◌, ◌>>◌, pure, raise,
  require, modify, gets, or_raise,
}
use property_community_agent.Platform.Tables.{AuditLog, SummaryValue, null, words}
use property_community_agent.Inspection.Enums.{
  Role, resident, customer_service, security_staff, manager,
}
use property_community_agent.Inspection.EventEnums.{
  EventStatus, pending_review, EventAction, create, assign, submit_disposal, grade_confirm,
  review_pass, return_event, high_risk, status_eq, action_eq, risk_eq, action_value,
}
use property_community_agent.Inspection.Errors.{
  InspectionError, validation_error, not_found, invalid_event_transition, version_conflict,
}
use property_community_agent.Inspection.Event.{SecurityEvent, transition, touch, state_actions}
use property_community_agent.Inspection.Commands.{
  RequestContext, has_any_role, Command, ExecuteEventAction,
}
use property_community_agent.Inspection.Snapshot.{event_of_response}
use property_community_agent.Inspection.Repository.{
  InspectionDb, EventDisposal, get_event, save_event, add_event_disposal,
}
use property_community_agent.Inspection.Ports.{
  consume_agent_write, ensure_security_staff, ensure_usable,
}
use property_community_agent.Inspection.Service.{
  Environment, event_action_payload, denied, require_role, require_idempotency_key, lift_result,
  required_text, or_replay, record_event, audit_row, add_audit,
}
use property_community_agent.Inspection.Events.{event_read_roles, log_event}

abbrev pub event_operation : ExecuteEventAction → String
event_operation k = str_append "SECURITY_EVENT_" (action_value k.action)

-- What the role of the caller hides of an event.
abbrev pub may_see_event : RequestContext → SecurityEvent → Bool
may_see_event c e =
    if has_any_role c (manager ∷ [])
    then true
    else if has_any_role c (security_staff ∷ [])
    then is_id e.assignee_id c.actor_id || e.reporter_id == c.actor_id
    else not
        (has_any_role c (customer_service ∷ resident ∷ []) && not (e.reporter_id == c.actor_id))

-- `_get_authorized_event`.
unfoldable pub get_authorized_event :
    ℕ → RequestContext → Action InspectionDb InspectionError SecurityEvent
get_authorized_event i c = do
  require_role c event_read_roles
  e ← or_raise (← gets (get_event i c.community_id)) not_found
  require (may_see_event c e) not_found
  pure e

abbrev pub Outcome : Type 0
Outcome = Option Text × SecurityEvent

-- `_assign_event`.
unfoldable pub assign_event :
    SecurityEvent
    → ExecuteEventAction
    → RequestContext
    → ℕ
    → Action InspectionDb InspectionError Outcome
assign_event e k c now = do
  require_role c (manager ∷ [])
  user ← or_raise k.assignee_id (validation_error "assignee_id is required.")
  ensure_security_staff user c.community_id
  e' ← lift_result (transition k.action now (record e { assignee_id = some user }))
  pure (none, e')

-- `_require_event_handler`.
abbrev pub is_event_handler : SecurityEvent → RequestContext → Bool
is_event_handler e c = has_any_role c (security_staff ∷ []) && is_id e.assignee_id c.actor_id

abbrev pub new_disposal :
    SecurityEvent → ExecuteEventAction → RequestContext → Text → ℕ → EventDisposal
new_disposal e k c note now = record {
  community_id = c.community_id;
  event_id = e.id;
  handler_id = c.actor_id;
  note = note;
  attachment_ids = k.attachment_ids;
  created_at = now;
}

-- `_submit_disposal`.
unfoldable pub submit_event_disposal :
    SecurityEvent
    → ExecuteEventAction
    → RequestContext
    → ℕ
    → Action InspectionDb InspectionError Outcome
submit_event_disposal e k c now = do
  require (is_event_handler e c) denied
  require (not (status_eq e.status pending_review))
      (invalid_event_transition e.status k.action (state_actions e))
  note ← lift_result (required_text k.note "A disposal note is required.")
  ensure_usable k.attachment_ids c.actor_id c.community_id
  modify (add_event_disposal (new_disposal e k c note now))
  e' ← lift_result (transition k.action now e)
  pure (some note, e')

-- `_grade_confirm`.
unfoldable pub confirm_grade :
    SecurityEvent
    → ExecuteEventAction
    → RequestContext
    → ℕ
    → Action InspectionDb InspectionError Outcome
confirm_grade e k c now = do
  require_role c (manager ∷ [])
  require (status_eq e.status pending_review)
      (invalid_event_transition e.status grade_confirm (state_actions e))
  require (risk_eq e.risk_level high_risk)
      (validation_error "Grade confirmation is only required for high-risk events.")
  pure (none, touch now (record e { grade_confirmed_by = some c.actor_id }))

-- `_review_pass`.
unfoldable pub pass_review :
    SecurityEvent
    → ExecuteEventAction
    → RequestContext
    → ℕ
    → Action InspectionDb InspectionError Outcome
pass_review e k c now = do
  require_role c (manager ∷ [])
  e' ← lift_result (transition review_pass now e)
  pure (none, e')

unfoldable pub return_to_handler :
    SecurityEvent
    → ExecuteEventAction
    → RequestContext
    → ℕ
    → Action InspectionDb InspectionError Outcome
return_to_handler e k c now = do
  require_role c (manager ∷ [])
  reason ← lift_result (required_text k.note "A return reason is required.")
  e' ← lift_result (transition k.action now e)
  pure (some reason, e')

abbrev pub event_handler :
    EventAction
    → SecurityEvent
    → ExecuteEventAction
    → RequestContext
    → ℕ
    → Action InspectionDb InspectionError Outcome
event_handler assign e k c now = assign_event e k c now
event_handler submit_disposal e k c now = submit_event_disposal e k c now
event_handler grade_confirm e k c now = confirm_grade e k c now
event_handler review_pass e k c now = pass_review e k c now
event_handler return_event e k c now = return_to_handler e k c now
event_handler create e k c now = raise (validation_error "Unsupported action: CREATE.")

-- `_apply_event_action`.
unfoldable pub apply_event_action :
    SecurityEvent
    → ExecuteEventAction
    → RequestContext
    → ℕ
    → Action InspectionDb InspectionError Outcome
apply_event_action e k c now = event_handler k.action e k c now

-- The agent submits a disposal only with an approved token.
unfoldable pub consume_event_write :
    Environment
    → ℕ
    → Command ExecuteEventAction
    → RequestContext
    → Action InspectionDb InspectionError (Unit {0})
consume_event_write env i k c =
    if action_eq k.business.action submit_disposal
    then consume_agent_write env.fence c k.confirmation (event_operation k.business)
        (env.canonical_hash (event_action_payload i k.business)) env.now
    else pure tt

abbrev option_words : Option Text → SummaryValue
option_words none = null
option_words (some t) = words t

abbrev pub action_audit :
    ExecuteEventAction → RequestContext → Option Text → SecurityEvent → AuditLog
action_audit k c reason e' =
    audit_row c (action_value k.action) "SECURITY_EVENT" e'.id
      (("reason", option_words reason) ∷ [])

-- What follows the handler: the response, the status log, the write, the audit row.
unfoldable pub finish_event_action :
    Environment
    → ℕ
    → ExecuteEventAction
    → RequestContext
    → Text
    → EventStatus
    → Option Text
    → SecurityEvent
    → Action InspectionDb InspectionError SecurityEvent
unfolding log_event
finish_event_action env i k c key from reason e' = do
  modify (record_event c (event_operation k) key (env.canonical_hash (event_action_payload i k)) e')
  log_event e' c (action_value k.action) (some from) reason env.now
  save_event e'
  modify (add_audit (action_audit k c reason e'))
  pure e'

-- The part of `execute_event_action` that runs when no response is stored.
unfoldable pub run_event_action :
    Environment
    → ℕ
    → Command ExecuteEventAction
    → RequestContext
    → Text
    → Action InspectionDb InspectionError SecurityEvent
run_event_action env i k c key = do
  e ← get_authorized_event i c
  require (e.version == k.business.expected_version) (version_conflict e.version)
  consume_event_write env i k c
  (reason, e') ← apply_event_action e k.business c env.now
  finish_event_action env i k.business c key e.status reason e'

-- `execute_event_action`.
unfoldable pub execute_event_action :
    Environment
    → ℕ
    → Command ExecuteEventAction
    → RequestContext
    → Text
    → Action InspectionDb InspectionError SecurityEvent
execute_event_action env i k c key = do
  require_idempotency_key key
  or_replay event_of_response c (event_operation k.business) key
      (env.canonical_hash (event_action_payload i k.business)) (run_event_action env i k c key)
