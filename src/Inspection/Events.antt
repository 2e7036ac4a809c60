-- ===== src/Inspection/Events.antt =====
-- SecurityEventService of src/property_agent/inspection/application/service.py: `create_event`. The
-- other operations are in the child modules.
pub mod Alerts
pub mod Reporting
pub mod Execute
pub mod Queries
use property_community_agent.Base.{
  ℕ, String, Bool, true, false, Option, none, some, List, [], ◌∷◌, ◌++◌, leb, if◌then◌else◌, length,
  Text, strip, has_content, Result, ok, err, Action, ◌>>=◌, ◌>>◌, pure, raise, require, modify,
}
use property_community_agent.Platform.Tables.{AuditLog, SummaryValue, label, PlatformDb}
use property_community_agent.Platform.Outbox.{enqueue}
use property_community_agent.Inspection.Enums.{
  Role, resident, customer_service, security_staff, manager,
}
use property_community_agent.Inspection.EventEnums.{
  EventStatus, reported, high_risk, risk_eq, risk_value, event_type_value,
}
use property_community_agent.Inspection.Errors.{
  InspectionError, validation_error, confirmation_required,
}
use property_community_agent.Inspection.Event.{SecurityEvent}
use property_community_agent.Inspection.Commands.{RequestContext, Command, CreateEvent}
use property_community_agent.Inspection.Snapshot.{event_of_response}
use property_community_agent.Inspection.Repository.{
  InspectionDb, EventStatusLog, add_event, add_event_status_log,
}
use property_community_agent.Inspection.Ports.{
  consume, token_text, list_duty_users, notice, escalate_high_risk,
}
use property_community_agent.Inspection.Service.{
  Environment, create_event_payload, event_confirmation_payload, require_role,
  require_idempotency_key, operator_role, lift_result, or_replay, record_event, audit_row,
  add_audit,
}

abbrev pub event_read_roles : List Role
event_read_roles = manager ∷ security_staff ∷ customer_service ∷ resident ∷ []

abbrev pub event_create_roles : List Role
event_create_roles = resident ∷ customer_service ∷ security_staff ∷ manager ∷ []

-- `_validate_create` of SecurityEventService.
unfoldable pub validate_event : CreateEvent → Action InspectionDb InspectionError (Unit {0})
validate_event k = do
  require (has_content k.location) (validation_error "location is required.")
  require (leb (length (strip k.location)) 128)
      (validation_error "location must not exceed 128 characters.")
  require (has_content k.description) (validation_error "description is required.")

abbrev pub new_event : Environment → CreateEvent → RequestContext → Text → SecurityEvent
new_event env k c key = record {
  id = env.new_id;
  community_id = c.community_id;
  business_no = env.business_no;
  reporter_id = c.actor_id;
  event_type = k.event_type;
  risk_level = k.risk_level;
  location = strip k.location;
  description = strip k.description;
  create_idempotency_key = key;
  status = reported;
  source_task_id = k.source_task_id;
  assignee_id = none;
  grade_confirmed_by = none;
  report_source = k.report_source;
  version = 1;
  created_at = env.now;
  updated_at = env.now;
  closed_at = none;
}

abbrev pub event_log :
    SecurityEvent
    → RequestContext
    → String
    → Option EventStatus
    → Role
    → Option Text
    → ℕ
    → EventStatusLog
event_log e c action from role reason now = record {
  community_id = c.community_id;
  event_id = e.id;
  from_status = from;
  action_code = action;
  to_status = e.status;
  operator_id = c.actor_id;
  operator_role = role;
  reason = reason;
  request_id = c.request_id;
  created_at = now;
}

-- `_add_event_status_log`.
unfoldable pub log_event :
    SecurityEvent
    → RequestContext
    → String
    → Option EventStatus
    → Option Text
    → ℕ
    → Action InspectionDb InspectionError (Unit {0})
log_event e c action from reason now = do
  role ← lift_result (operator_role c)
  modify (add_event_status_log (event_log e c action from role reason now))

-- The message to one person on duty.
unfoldable pub alert : Environment → RequestContext → ℕ → ℕ → InspectionDb → InspectionDb
alert env c event receiver s = record s {
  platform = record s.platform {
    messages =
        (enqueue env.sha256_hex (env.message_id receiver) env.now
          (notice event "HIGH_RISK_EVENT" receiver c.request_id) s.platform.messages).1;
  };
}

unfoldable pub alert_all : Environment → RequestContext → ℕ → List ℕ → InspectionDb → InspectionDb
unfolding alert
alert_all env c event [] s = s
alert_all env c event (u ∷ us) s = alert_all env c event us (alert env c event u s)

-- Everyone on duty gets a message; if nobody is, the event goes to the backup contact.
unfoldable pub alert_or_escalate :
    Environment → RequestContext → ℕ → List ℕ → InspectionDb → InspectionDb
unfolding alert_all escalate_high_risk
alert_or_escalate env c event [] s = escalate_high_risk env.ticket_id c.community_id event s
alert_or_escalate env c event (u ∷ us) s = alert_all env c event (u ∷ us) s

unfoldable pub notify_high_risk :
    Environment → RequestContext → SecurityEvent → InspectionDb → InspectionDb
unfolding alert_or_escalate list_duty_users
notify_high_risk env c e s =
    if risk_eq e.risk_level high_risk
    then alert_or_escalate env c e.id (list_duty_users c.community_id s) s
    else s

abbrev pub created_audit : SecurityEvent → RequestContext → AuditLog
created_audit e c = audit_row c "CREATE" "SECURITY_EVENT" e.id (
    ("event_type", label (event_type_value e.event_type))
    ∷ ("risk_level", label (risk_value e.risk_level))
    ∷ [])

-- The writes of `create_event` once its checks are passed.
unfoldable pub insert_event :
    Environment
    → CreateEvent
    → RequestContext
    → Text
    → Action InspectionDb InspectionError SecurityEvent
unfolding log_event
insert_event env k c key = do
  let e = new_event env k c key
  modify (add_event e)
  log_event e c "CREATE" none none env.now
  modify
      (record_event c "SECURITY_EVENT_CREATE" key (env.canonical_hash (create_event_payload k)) e)
  modify (add_audit (created_audit e c))
  modify (notify_high_risk env c e)
  pure e

-- The part of `create_event` that runs when no response is stored.
unfoldable pub report_event :
    Environment
    → Command CreateEvent
    → RequestContext
    → Text
    → Action InspectionDb InspectionError SecurityEvent
unfolding validate_event insert_event consume
report_event env k c key = do
  validate_event k.business
  consume env.fence k.confirmation.approval_ref (token_text k.confirmation.confirmation_token)
      c.actor_id "SECURITY_EVENT_CREATE"
      (env.canonical_hash (
        event_confirmation_payload k.business.event_type k.business.risk_level k.business.location))
      env.now
  insert_event env k.business c key

-- `create_event`.
unfoldable pub create_event :
    Environment
    → Command CreateEvent
    → RequestContext
    → Text
    → Action InspectionDb InspectionError SecurityEvent
create_event env k c key = do
  require_idempotency_key key
  require_role c event_create_roles
  require (has_content (token_text k.confirmation.confirmation_token)) confirmation_required
  or_replay event_of_response c "SECURITY_EVENT_CREATE" key
      (env.canonical_hash (create_event_payload k.business)) (report_event env k c key)
