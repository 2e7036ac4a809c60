-- ===== src/Inspection/Repository/Tables.antt =====
-- The tables of inspection/infrastructure/models.py beside those of tasks and events, and the session.
use property_community_agent.Base.{ℕ, String, Bool, Option, List, Text}
use property_community_agent.Platform.Tables.{PlatformDb}
use property_community_agent.Platform.Idempotency.{IdempotencyRecord}
use property_community_agent.Inspection.Enums.{Role, TaskStatus, TaskRecordType}
use property_community_agent.Inspection.EventEnums.{EventStatus}
use property_community_agent.Inspection.Task.{InspectionTask}
use property_community_agent.Inspection.Event.{SecurityEvent}
use property_community_agent.Inspection.Snapshot.{Response}

pub record TaskStatusLog : Type 0 where
  pub community_id : ℕ
  pub task_id : ℕ
  pub from_status : Option TaskStatus
  pub action_code : String
  pub to_status : TaskStatus
  pub operator_id : ℕ
  pub operator_role : Role
  pub reason : Option Text
  pub request_id : Text
  pub created_at : ℕ

pub record TaskRecord : Type 0 where
  pub community_id : ℕ
  pub task_id : ℕ
  pub record_type : TaskRecordType
  pub point : Option Text
  pub note : Text
  pub operator_id : ℕ
  pub attachment_ids : List ℕ
  pub is_supplement : Bool
  pub actual_time : Option ℕ
  pub supplement_reason : Option Text
  pub created_at : ℕ

pub record EventStatusLog : Type 0 where
  pub community_id : ℕ
  pub event_id : ℕ
  pub from_status : Option EventStatus
  pub action_code : String
  pub to_status : EventStatus
  pub operator_id : ℕ
  pub operator_role : Role
  pub reason : Option Text
  pub request_id : Text
  pub created_at : ℕ

pub record EventDisposal : Type 0 where
  pub community_id : ℕ
  pub event_id : ℕ
  pub handler_id : ℕ
  pub note : Text
  pub attachment_ids : List ℕ
  pub created_at : ℕ

pub record InspectionDb : Type 0 where
  pub platform : PlatformDb
  pub tasks : List InspectionTask
  pub task_logs : List TaskStatusLog
  pub task_records : List TaskRecord
  pub events : List SecurityEvent
  pub event_logs : List EventStatusLog
  pub event_disposals : List EventDisposal
  pub idempotency : List (IdempotencyRecord Response)
