-- ===== src/Inspection/Commands.antt =====
-- src/property_agent/inspection/application/commands.py and the request context of
-- inspection/application/ports.py. The frozen set of roles is its characteristic function.
use property_community_agent.Base.{
  ℕ, String, Bool, ◌&&◌, Option, none, some, List, if◌then◌else◌, leb, length, any, Text,
  has_content,
}
use property_community_agent.Platform.ConfirmationPort.{ExecutionSource}
use property_community_agent.Inspection.Enums.{Role, TaskAction, TaskRecordType}
use property_community_agent.Inspection.EventEnums.{EventAction, EventRiskLevel, EventType}

pub record RequestContext : Type 0 where
  pub actor_id : ℕ
  pub community_id : ℕ
  pub roles : Role → Bool
  pub request_id : Text
  pub execution_source : ExecutionSource

-- `RequestContext.__post_init__`; `none` stands for its ValueError.
unfoldable pub make_context : RequestContext → Option RequestContext
make_context c = if has_content c.request_id && leb (length c.request_id) 64 then some c else none

-- `has_any_role`.
abbrev pub has_any_role : RequestContext → List Role → Bool
has_any_role c rs = any c.roles rs

-- The token and the reference of an approval, which every confirmed command carries.
pub record Confirmation : Type 0 where
  pub confirmation_token : Option Text
  pub approval_ref : Option ℕ

pub record CreateTask : Type 0 where
  pub title : Text
  pub description : Text
  pub route_points : List Text
  pub planned_at : Option ℕ
  pub due_at : Option ℕ
  pub attachment_ids : List ℕ

pub record ExecuteTaskAction : Type 0 where
  pub action : TaskAction
  pub expected_version : ℕ
  pub assignee_id : Option ℕ
  pub note : Option Text
  pub record_type : Option TaskRecordType
  pub point : Option Text
  pub attachment_ids : List ℕ
  pub is_supplement : Bool
  pub actual_time : Option ℕ
  pub supplement_reason : Option Text

pub record AddAiSuggestion : Type 0 where
  pub point : Text
  pub finding : Text
  pub severity : String
  pub model : String

pub record CreateEvent : Type 0 where
  pub source_task_id : Option ℕ
  pub event_type : EventType
  pub risk_level : EventRiskLevel
  pub location : Text
  pub description : Text
  pub report_source : String
  pub attachment_ids : List ℕ

pub record ExecuteEventAction : Type 0 where
  pub action : EventAction
  pub expected_version : ℕ
  pub assignee_id : Option ℕ
  pub note : Option Text
  pub attachment_ids : List ℕ

-- A command is what the business parameters say, and the confirmation that `business_command`
-- leaves out of them.
pub record Command (P : Type 0) : Type 0 where
  pub business : P
  pub confirmation : Confirmation

pub record InspectionTaskSearch : Type 0 where
  pub statuses : List String
  pub assigned_to_me : Bool
  pub limit : ℕ
  pub offset : ℕ

pub record SecurityEventSearch : Type 0 where
  pub statuses : List String
  pub risk_levels : List String
  pub assigned_to_me : Bool
  pub limit : ℕ
  pub offset : ℕ

pub record TimelineEntry : Type 0 where
  pub entry_type : String
  pub action : String
  pub operator_id : ℕ
  pub created_at : ℕ
  pub from_status : Option String
  pub to_status : Option String
  pub reason : Option Text
  pub note : Option Text
  pub attachment_ids : List ℕ
