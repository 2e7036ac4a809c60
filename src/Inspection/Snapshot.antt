-- ===== src/Inspection/Snapshot.antt =====
-- The snapshots of src/property_agent/inspection/application/service.py (`_task_snapshot`,
-- `_task_from_snapshot`, `_event_snapshot`, `_event_from_snapshot`). Identifiers and moments are
-- written and read by the standard library and stay as they are; an enumeration is stored as its
-- value, and a value that is no member raises.
use property_community_agent.Base.{ℕ, ◌≡◌, refl, String, Bool, Option, none, some, List, Text}
use property_community_agent.Inspection.Enums.{
  TaskStatus, status_value, status_of_value, status_of_value-status_value,
}
use property_community_agent.Inspection.EventEnums
use property_community_agent.Inspection.EventEnums.{EventStatus, EventRiskLevel, EventType}
use property_community_agent.Inspection.Task.{AiSuggestion, InspectionTask}
use property_community_agent.Inspection.Event.{SecurityEvent}

pub record TaskSnapshot : Type 0 where
  pub id : ℕ
  pub community_id : ℕ
  pub business_no : Text
  pub title : Text
  pub description : Text
  pub route_points : List Text
  pub created_by : ℕ
  pub create_idempotency_key : Text
  pub status : String
  pub assignee_id : Option ℕ
  pub planned_at : Option ℕ
  pub due_at : Option ℕ
  pub version : ℕ
  pub created_at : ℕ
  pub updated_at : ℕ
  pub closed_at : Option ℕ
  pub ai_suggestions : List AiSuggestion
  pub ai_pending_confirm : Bool

pub record EventSnapshot : Type 0 where
  pub id : ℕ
  pub community_id : ℕ
  pub business_no : Text
  pub reporter_id : ℕ
  pub event_type : String
  pub risk_level : String
  pub location : Text
  pub description : Text
  pub status : String
  pub source_task_id : Option ℕ
  pub create_idempotency_key : Text
  pub assignee_id : Option ℕ
  pub grade_confirmed_by : Option ℕ
  pub report_source : String
  pub version : ℕ
  pub created_at : ℕ
  pub updated_at : ℕ
  pub closed_at : Option ℕ

pub data Response : Type 0 where
  task_response : TaskSnapshot → Response
  event_response : EventSnapshot → Response

unfoldable pub task_snapshot : InspectionTask → TaskSnapshot
task_snapshot t = record {
  id = t.id;
  community_id = t.community_id;
  business_no = t.business_no;
  title = t.title;
  description = t.description;
  route_points = t.route_points;
  created_by = t.created_by;
  create_idempotency_key = t.create_idempotency_key;
  status = status_value t.status;
  assignee_id = t.assignee_id;
  planned_at = t.planned_at;
  due_at = t.due_at;
  version = t.version;
  created_at = t.created_at;
  updated_at = t.updated_at;
  closed_at = t.closed_at;
  ai_suggestions = t.ai_suggestions;
  ai_pending_confirm = t.ai_pending_confirm;
}

abbrev build_task : Option TaskStatus → TaskSnapshot → Option InspectionTask
build_task none s = none
build_task (some status) s = some (record {
  id = s.id;
  community_id = s.community_id;
  business_no = s.business_no;
  title = s.title;
  description = s.description;
  route_points = s.route_points;
  created_by = s.created_by;
  create_idempotency_key = s.create_idempotency_key;
  status = status;
  assignee_id = s.assignee_id;
  planned_at = s.planned_at;
  due_at = s.due_at;
  version = s.version;
  created_at = s.created_at;
  updated_at = s.updated_at;
  closed_at = s.closed_at;
  ai_suggestions = s.ai_suggestions;
  ai_pending_confirm = s.ai_pending_confirm;
})

unfoldable pub task_from_snapshot : TaskSnapshot → Option InspectionTask
task_from_snapshot s = build_task (status_of_value s.status) s

unfoldable pub event_snapshot : SecurityEvent → EventSnapshot
event_snapshot e = record {
  id = e.id;
  community_id = e.community_id;
  business_no = e.business_no;
  reporter_id = e.reporter_id;
  event_type = EventEnums.event_type_value e.event_type;
  risk_level = EventEnums.risk_value e.risk_level;
  location = e.location;
  description = e.description;
  status = EventEnums.status_value e.status;
  source_task_id = e.source_task_id;
  create_idempotency_key = e.create_idempotency_key;
  assignee_id = e.assignee_id;
  grade_confirmed_by = e.grade_confirmed_by;
  report_source = e.report_source;
  version = e.version;
  created_at = e.created_at;
  updated_at = e.updated_at;
  closed_at = e.closed_at;
}

abbrev build_event :
    Option EventType
    → Option EventRiskLevel
    → Option EventStatus
    → EventSnapshot
    → Option SecurityEvent
build_event (some event_type) (some risk) (some status) s = some (record {
  id = s.id;
  community_id = s.community_id;
  business_no = s.business_no;
  reporter_id = s.reporter_id;
  event_type = event_type;
  risk_level = risk;
  location = s.location;
  description = s.description;
  create_idempotency_key = s.create_idempotency_key;
  status = status;
  source_task_id = s.source_task_id;
  assignee_id = s.assignee_id;
  grade_confirmed_by = s.grade_confirmed_by;
  report_source = s.report_source;
  version = s.version;
  created_at = s.created_at;
  updated_at = s.updated_at;
  closed_at = s.closed_at;
})
build_event _ _ _ s = none

unfoldable pub event_from_snapshot : EventSnapshot → Option SecurityEvent
event_from_snapshot s =
    build_event (EventEnums.event_type_of_value s.event_type)
      (EventEnums.risk_of_value s.risk_level) (EventEnums.status_of_value s.status) s

-- The response that a replay of a task's operation returns; a response of another kind has no such
-- keys and raises.
abbrev pub task_of_response : Response → Option InspectionTask
task_of_response (task_response s) = task_from_snapshot s
task_of_response (event_response _) = none

abbrev pub event_of_response : Response → Option SecurityEvent
event_of_response (event_response s) = event_from_snapshot s
event_of_response (task_response _) = none

pub task_from-task_snapshot : (t : InspectionTask) → task_from_snapshot (task_snapshot t) ≡ some t
unfolding task_from_snapshot task_snapshot
task_from-task_snapshot t = rw (status_of_value-status_value t.status) refl

-- An event comes back from its snapshot unchanged.
pub event_from-event_snapshot :
    (e : SecurityEvent) → event_from_snapshot (event_snapshot e) ≡ some e
unfolding event_from_snapshot event_snapshot
event_from-event_snapshot e =
    rw
      (
        EventEnums.event_type_of_value-event_type_value e.event_type,
        EventEnums.risk_of_value-risk_value e.risk_level,
        EventEnums.status_of_value-status_value e.status,
      )
      refl
