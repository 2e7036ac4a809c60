-- ===== src/Inspection/Service.antt =====
-- src/property_agent/inspection/application/service.py: what InspectionTaskService and
-- SecurityEventService share, with inspection/application/agent_authority.py. The operations are in
-- Tasks and Events. One call reads the clock once, and what the code draws at random or takes from
-- the surroundings is a field of `Environment`; SHA-256 over the canonical JSON is `canonical_hash`.
pub mod Responses
use property_community_agent.Base.{
  ℕ, String, Bool, true, false, not, ◌&&◌, ◌||◌, Option, none, some, List, [], ◌∷◌, ◌++◌, leb, ltb,
  ◌==◌, if◌then◌else◌, str_append, any, length, Text, strip, has_content, Result, ok, err, Action,
  ◌>>=◌, ◌>>◌, pure, found_or, raise, require, modify,
}
use text.Mathlib.Text.{starts_with}
use property_community_agent.Platform.Tables.{AuditLog, SummaryValue, PlatformDb}
use property_community_agent.Platform.ConfirmationPort.{FenceSetting}
use property_community_agent.Platform.Idempotency.{
  IdempotencyKey, get_idempotency, read_stored, add_idempotency,
}
use property_community_agent.Inspection.Enums.{
  Role, resident, customer_service, security_staff, manager, TaskRecordType, TaskStatus,
}
use property_community_agent.Inspection.EventEnums.{EventStatus, EventType, EventRiskLevel}
use property_community_agent.Inspection.Errors.{
  InspectionError, validation_error, forbidden, idempotency_conflict, corrupt_snapshot,
}
use property_community_agent.Inspection.Task.{InspectionTask}
use property_community_agent.Inspection.Event.{SecurityEvent}
use property_community_agent.Inspection.Commands.{
  RequestContext, has_any_role, CreateTask, ExecuteTaskAction, AddAiSuggestion, CreateEvent,
  ExecuteEventAction,
}
use property_community_agent.Inspection.Snapshot.{
  Response, task_response, event_response, task_snapshot, event_snapshot, task_of_response,
  event_of_response,
}
use property_community_agent.Inspection.Repository.{InspectionDb}

-- What is hashed: the parameters of a request, and those that a confirmation covers.
pub data Payload : Type 0 where
  create_task_payload : CreateTask → Payload
  task_action_payload : ℕ → ExecuteTaskAction → Payload
  submission_payload : Option Text → Option TaskRecordType → Option Text → Payload
  suggestion_payload : AddAiSuggestion → Payload
  task_suggestion_payload : ℕ → AddAiSuggestion → Payload
  confirm_payload : ℕ → Payload
  create_event_payload : CreateEvent → Payload
  event_confirmation_payload : EventType → EventRiskLevel → Text → Payload
  event_action_payload : ℕ → ExecuteEventAction → Payload

pub record Environment : Type 0 where
  pub now : ℕ
  pub new_id : ℕ
  pub business_no : Text
  pub message_id : ℕ → ℕ
  pub ticket_id : ℕ
  pub fence : FenceSetting
  pub canonical_hash : Payload → ℕ
  pub sha256_hex : Text → Text

abbrev pub denied : InspectionError
denied = forbidden "You are not allowed to perform this operation."

-- `_require_role`.
abbrev pub require_role :
    RequestContext → List Role → Action InspectionDb InspectionError (Unit {0})
require_role c roles = require (has_any_role c roles) denied

-- `require_inspection_idempotency_key`.
unfoldable pub is_idempotency_key : Text → Bool
is_idempotency_key key = has_content key && leb (length key) 128

abbrev pub require_idempotency_key : Text → Action InspectionDb InspectionError (Unit {0})
require_idempotency_key key =
    require (is_idempotency_key key)
      (validation_error "Idempotency-Key is required and must not exceed 128 characters.")

-- `inspection_operator_role`.
unfoldable pub operator_role : RequestContext → Result InspectionError Role
operator_role c =
    if c.roles manager
    then ok manager
    else if c.roles security_staff
    then ok security_staff
    else if c.roles customer_service
    then ok customer_service
    else if c.roles resident
    then ok resident
    else err denied

abbrev pub lift_result :
    {A : Type 0} → Result InspectionError A → Action InspectionDb InspectionError A
lift_result (ok a) s = ok (a, s)
lift_result (err e) s = err e

-- `_required_text`.
unfoldable pub required_text : Option Text → String → Result InspectionError Text
required_text none message = err (validation_error message)
required_text (some value) message =
    if has_content value then ok (strip value) else err (validation_error message)

-- `_validate_pagination`; numbers below zero do not occur.
abbrev pub validate_pagination : ℕ → Action InspectionDb InspectionError (Unit {0})
validate_pagination limit =
    require (leb 1 limit && leb limit 100)
      (validation_error "Pagination must use offset >= 0 and limit between 1 and 100.")

abbrev pub key_of : RequestContext → String → Text → IdempotencyKey
key_of c operation key = record { actor_id = c.actor_id; operation = operation; key = key }

-- The entity in a stored response.
abbrev pub stored_entity :
    {A : Type 0} → (Response → Option A) → ℕ → Response → Result InspectionError A
stored_entity read resource response = elim (read response) [
  | none ↦ err corrupt_snapshot
  | some a ↦ ok a
]

-- `_idempotent_replay` of either service, by the reader of its snapshots.
unfoldable pub idempotent_replay :
    {A : Type 0}
    → (Response → Option A)
    → RequestContext
    → String
    → Text
    → ℕ
    → Action InspectionDb InspectionError (Option A)
idempotent_replay read c operation key hash s =
    read_stored (stored_entity read) idempotency_conflict
      (get_idempotency (key_of c operation key) s.idempotency) hash s

-- A write runs when no response is stored under its key, and the stored one is returned otherwise.
abbrev pub or_replay :
    {A : Type 0}
    → (Response → Option A)
    → RequestContext
    → String
    → Text
    → ℕ
    → Action InspectionDb InspectionError A
    → Action InspectionDb InspectionError A
or_replay read c operation key hash m = found_or (idempotent_replay read c operation key hash) m

abbrev pub add_response :
    RequestContext → String → Text → ℕ → ℕ → Response → InspectionDb → InspectionDb
add_response c operation key hash resource response s = record s {
  idempotency = add_idempotency (key_of c operation key) hash resource response s.idempotency;
}

abbrev pub record_task :
    RequestContext → String → Text → ℕ → InspectionTask → InspectionDb → InspectionDb
record_task c operation key hash t =
    add_response c operation key hash t.id (task_response (task_snapshot t))

abbrev pub record_event :
    RequestContext → String → Text → ℕ → SecurityEvent → InspectionDb → InspectionDb
record_event c operation key hash e =
    add_response c operation key hash e.id (event_response (event_snapshot e))

-- `_audit` with `PlatformAuditPort.add`: the action gets the prefix of the module where it lacks it.
abbrev pub prefixed : String → String
prefixed action =
    if starts_with action "INSPECTION_" then action else str_append "INSPECTION_" action

abbrev pub audit_row :
    RequestContext → String → String → ℕ → List (String × SummaryValue) → AuditLog
audit_row c action resource_type resource summary = record {
  actor_id = c.actor_id;
  community_id = c.community_id;
  action = prefixed action;
  resource_type = resource_type;
  resource_id = resource;
  parameter_summary = summary;
  result = "SUCCESS";
  request_id = c.request_id;
}

abbrev pub add_audit : AuditLog → InspectionDb → InspectionDb
add_audit row s = record s {
  platform = record s.platform { audit_logs = s.platform.audit_logs ++ row ∷ [] };
}
