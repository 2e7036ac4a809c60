-- ===== src/Platform/Tables.antt =====
-- The tables of platform/infrastructure/orm_models.py and agent_fence.py that the business modules
-- reach through one session, each with the columns that the modelled code reads or writes. A status
-- or role column is text in the source and stays text.
use property_community_agent.Base.{ℕ, String, Option, List, Text}
use property_community_agent.Platform.Approval.{Approvals}
use property_community_agent.Platform.Confirmation.{Tokens}

pub record User : Type 0 where
  pub id : ℕ
  pub community_id : ℕ
  pub status : String

pub record UserRole : Type 0 where
  pub user_id : ℕ
  pub role : String
  pub scope : String
  pub valid_from : ℕ
  pub valid_until : Option ℕ

pub record House : Type 0 where
  pub id : ℕ
  pub community_id : ℕ
  pub building : String

pub record HouseBinding : Type 0 where
  pub user_id : ℕ
  pub house_id : ℕ
  pub status : String

pub record Attachment : Type 0 where
  pub id : ℕ
  pub community_id : ℕ
  pub uploader_id : ℕ
  pub status : String
  pub content_type : String
  pub size_bytes : ℕ

-- A row of `agent_run_leases`.
pub record RunLease : Type 0 where
  pub thread_id : String
  pub owner_run_id : ℕ
  pub fence : ℕ
  pub lease_until : ℕ

pub data MessageStatus : Type 0 where
  pending sent failed : MessageStatus

-- A row of `message_records`.
pub record Message : Type 0 where
  pub id : ℕ
  pub receiver_id : ℕ
  pub business_type : String
  pub resource_id : Text
  pub title : String
  pub body : String
  pub status : MessageStatus
  pub read_at : Option ℕ
  pub retry_count : ℕ
  pub last_error : Option String
  pub idempotency_key : Text
  pub created_at : ℕ
  pub updated_at : ℕ

-- A row of `handover_tickets`; the payload, the summary and the request's identifier are not read
-- again and are left out.
pub record HandoverTicket : Type 0 where
  pub id : ℕ
  pub community_id : ℕ
  pub requester_id : Option ℕ
  pub resource_type : String
  pub resource_id : Option ℕ
  pub source : String
  pub queue : String
  pub reason : String
  pub status : String

-- One value of an audit row's parameter summary.
pub data SummaryValue : Type 0 where
  null : SummaryValue
  number : ℕ → SummaryValue
  words : Text → SummaryValue
  label : String → SummaryValue

-- A row of `audit_logs`, with the summary as the business service hands it over.
pub record AuditLog : Type 0 where
  pub actor_id : ℕ
  pub community_id : ℕ
  pub action : String
  pub resource_type : String
  pub resource_id : ℕ
  pub parameter_summary : List (String × SummaryValue)
  pub result : String
  pub request_id : Text

pub record PlatformDb : Type 0 where
  pub approvals : Approvals
  pub tokens : Tokens
  pub users : List User
  pub user_roles : List UserRole
  pub houses : List House
  pub house_bindings : List HouseBinding
  pub attachments : List Attachment
  pub run_leases : List RunLease
  pub messages : List Message
  pub handover_tickets : List HandoverTicket
  pub audit_logs : List AuditLog
