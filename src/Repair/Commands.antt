-- ===== src/Repair/Commands.antt =====
-- src/property_agent/repair/application/commands.py and the request context of
-- repair/application/ports.py. The frozen set of roles is its characteristic function.
use property_community_agent.Base.{
  ℕ, String, Bool, ◌&&◌, Option, none, some, List, if◌then◌else◌, leb, length, any, Text,
  has_content,
}
use property_community_agent.Repair.Enums.{
  Role, RepairCategory, Urgency, ActionCode, ProcessRecordType,
}

pub record RequestContext : Type 0 where
  pub actor_id : ℕ
  pub community_id : ℕ
  pub roles : Role → Bool
  pub request_id : Text
  pub house_ids : List ℕ

-- `RequestContext.__post_init__`; `none` stands for its ValueError.
unfoldable pub make_context : RequestContext → Option RequestContext
make_context c = if has_content c.request_id && leb (length c.request_id) 64 then some c else none

-- `has_any_role`.
abbrev pub has_any_role : RequestContext → List Role → Bool
has_any_role c rs = any c.roles rs

pub record CreateWorkOrderCommand : Type 0 where
  pub house_id : ℕ
  pub category : RepairCategory
  pub location : Text
  pub description : Text
  pub urgency : Urgency
  pub confirmation_token : Text
  pub approval_ref : Option ℕ
  pub appointment_at : Option ℕ
  pub attachment_ids : List ℕ

pub record ExecuteActionCommand : Type 0 where
  pub action : ActionCode
  pub expected_version : ℕ
  pub assignee_id : Option ℕ
  pub reason : Option Text
  pub note : Option Text
  pub record_type : Option ProcessRecordType
  pub appointment_at : Option ℕ
  pub attachment_ids : List ℕ

pub record CreateReviewCommand : Type 0 where
  pub rating : ℕ
  pub comment : Option Text

pub record WorkOrderSearch : Type 0 where
  pub house_id : Option ℕ
  pub statuses : List String
  pub assigned_to_me : Bool
  pub limit : ℕ
  pub offset : ℕ

-- What a timeline shows of a status log or of a process record.
pub record TimelineEntry : Type 0 where
  pub entry_type : String
  pub action : String
  pub operator_id : ℕ
  pub created_at : ℕ
  pub from_status : Option String
  pub to_status : Option String
  pub reason : Option Text
  pub note : Option Text
  pub appointment_at : Option ℕ
  pub attachment_ids : List ℕ
