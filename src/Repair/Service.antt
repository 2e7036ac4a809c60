-- ===== src/Repair/Service.antt =====
-- src/property_agent/repair/application/service.py: what the operations of WorkOrderService share.
-- The operations are in the child modules. One call reads the clock once, and what the code draws at
-- random or takes from the surroundings is a field of `Environment`; SHA-256 over the canonical JSON
-- is `canonical_hash`.
pub mod Visibility
pub mod Responses
pub mod Create
pub mod Handlers
pub mod Execute
pub mod Reviews
pub mod Queries
pub mod Validity
pub mod Invariant
use property_community_agent.Base.{
  ℕ, String, Bool, true, false, not, ◌&&◌, ◌||◌, Option, none, some, List, [], ◌∷◌, ◌++◌, leb, ltb,
  ◌==◌, if◌then◌else◌, str_eq, str_append, is_id, any, length, mem_id, Text, chars, strip,
  has_content, uuid_text, Result, ok, err, Action, ◌>>=◌, ◌>>◌, pure, raise, require, modify, gets,
  or_raise,
}
use property_community_agent.Platform.Tables.{AuditLog, SummaryValue, PlatformDb}
use property_community_agent.Platform.ConfirmationPort.{FenceSetting}
use property_community_agent.Platform.Idempotency.{
  IdempotencyKey, get_idempotency, read_stored, add_idempotency,
}
use property_community_agent.Platform.Outbox.{Notice, enqueue}
use property_community_agent.Repair.Enums.{
  Role, resident, customer_service, repair_worker, manager, RepairCategory, Urgency,
  WorkOrderStatus, ActionCode, assign, submit_completion, submit_rework_completion, request_rework,
  action_value,
}
use property_community_agent.Repair.Errors.{
  RepairError, validation_error, forbidden, not_found, idempotency_conflict, corrupt_snapshot,
}
use property_community_agent.Repair.WorkOrder.{WorkOrder}
use property_community_agent.Repair.Commands.{
  RequestContext, has_any_role, CreateWorkOrderCommand, ExecuteActionCommand, CreateReviewCommand,
}
use property_community_agent.Repair.Snapshot.{
  Response, work_order_response, snapshot, from_response,
}
use property_community_agent.Repair.Repository.{RepairDb, StatusLog, get, restricted_to}

-- The confirmed parameters of a creation: the command without its token and its approval.
pub record CreateParameters : Type 0 where
  pub house_id : ℕ
  pub category : RepairCategory
  pub location : Text
  pub description : Text
  pub urgency : Urgency
  pub appointment_at : Option ℕ
  pub attachment_ids : List ℕ

pub data Payload : Type 0 where
  create_payload : CreateParameters → Payload
  action_payload : ℕ → ExecuteActionCommand → Payload
  review_payload : ℕ → CreateReviewCommand → Payload

pub record Environment : Type 0 where
  pub now : ℕ
  pub new_id : ℕ
  pub business_no : Text
  pub message_id : ℕ → ℕ
  pub fence : FenceSetting
  pub canonical_hash : Payload → ℕ
  pub sha256_hex : Text → Text

abbrev pub create_roles : List Role
create_roles = resident ∷ customer_service ∷ manager ∷ []

abbrev pub assign_roles : List Role
assign_roles = customer_service ∷ manager ∷ []

abbrev pub read_roles : List Role
read_roles = resident ∷ customer_service ∷ repair_worker ∷ manager ∷ []

abbrev pub denied : RepairError
denied = forbidden "You are not allowed to perform this operation."

-- `_require_role`.
abbrev pub require_role : RequestContext → List Role → Action RepairDb RepairError (Unit {0})
require_role c roles = require (has_any_role c roles) denied

-- `_require_idempotency_key`.
unfoldable pub is_idempotency_key : Text → Bool
is_idempotency_key key = has_content key && leb (length key) 128

abbrev pub require_idempotency_key : Text → Action RepairDb RepairError (Unit {0})
require_idempotency_key key =
    require (is_idempotency_key key)
      (validation_error "Idempotency-Key is required and must not exceed 128 characters.")

-- `_required_text`.
unfoldable pub required_text : Option Text → String → Result RepairError Text
required_text none message = err (validation_error message)
required_text (some value) message =
    if has_content value then ok (strip value) else err (validation_error message)

abbrev pub lift_result : {A : Type 0} → Result RepairError A → Action RepairDb RepairError A
lift_result (ok a) s = ok (a, s)
lift_result (err e) s = err e

-- `_optional_text`.
unfoldable pub optional_text : Option Text → Option Text
optional_text none = none
optional_text (some value) = if has_content value then some (strip value) else none

abbrev pub key_of : RequestContext → String → Text → IdempotencyKey
key_of c operation key = record { actor_id = c.actor_id; operation = operation; key = key }

-- The work order in a stored response.
abbrev pub stored_order : ℕ → Response → Result RepairError WorkOrder
stored_order resource response = elim (from_response response) [
  | none ↦ err corrupt_snapshot
  | some w ↦ ok w
]

-- `_idempotent_replay`.
unfoldable pub idempotent_replay :
    RequestContext → String → Text → ℕ → Action RepairDb RepairError (Option WorkOrder)
idempotent_replay c operation key hash s =
    read_stored stored_order idempotency_conflict
      (get_idempotency (key_of c operation key) s.idempotency) hash s

abbrev pub add_response : IdempotencyKey → ℕ → ℕ → Response → RepairDb → RepairDb
add_response k hash resource response s = record s {
  idempotency = add_idempotency k hash resource response s.idempotency;
}

-- The record of a work order's response.
abbrev pub record_response : RequestContext → String → Text → ℕ → WorkOrder → RepairDb → RepairDb
record_response c operation key hash w =
    add_response (key_of c operation key) hash w.id (work_order_response (snapshot w))

-- `_operator_role`.
unfoldable pub operator_role : RequestContext → Result RepairError Role
operator_role c =
    if c.roles manager
    then ok manager
    else if c.roles customer_service
    then ok customer_service
    else if c.roles repair_worker
    then ok repair_worker
    else if c.roles resident
    then ok resident
    else err denied

abbrev pub new_log :
    WorkOrder
    → RequestContext
    → ActionCode
    → Option WorkOrderStatus
    → Role
    → Option Text
    → ℕ
    → StatusLog
new_log w c action from role reason now = record {
  community_id = c.community_id;
  work_order_id = w.id;
  from_status = from;
  action_code = action;
  to_status = w.status;
  operator_id = c.actor_id;
  operator_role = role;
  reason = reason;
  request_id = c.request_id;
  created_at = now;
}

-- `_add_status_log`.
abbrev pub add_status_log :
    WorkOrder
    → RequestContext
    → ActionCode
    → Option WorkOrderStatus
    → Option Text
    → ℕ
    → Action RepairDb RepairError (Unit {0})
add_status_log w c action from reason now = do
  role ← lift_result (operator_role c)
  modify
      λ s. record s { status_logs = s.status_logs ++ new_log w c action from role reason now ∷ [] }

-- `PlatformAuditPort.add`: the action gets the prefix of the module.
abbrev pub audit_row :
    RequestContext → String → String → ℕ → List (String × SummaryValue) → AuditLog
audit_row c action resource_type resource summary = record {
  actor_id = c.actor_id;
  community_id = c.community_id;
  action = str_append "REPAIR_" action;
  resource_type = resource_type;
  resource_id = resource;
  parameter_summary = summary;
  result = "SUCCESS";
  request_id = c.request_id;
}

abbrev pub add_audit : AuditLog → RepairDb → RepairDb
add_audit row s = record s {
  platform = record s.platform { audit_logs = s.platform.audit_logs ++ row ∷ [] };
}

-- `_audit`.
abbrev pub audit :
    WorkOrder → RequestContext → ActionCode → List (String × SummaryValue) → RepairDb → RepairDb
audit w c action summary = add_audit (audit_row c (action_value action) "WORK_ORDER" w.id summary)

-- `_MESSAGE_TEMPLATES` and `_template`.
unfoldable pub template : String → String × String
template e =
    if str_eq e "ASSIGN"
    then ("新的报修工单待接单", "有一条报修工单已派给你，请尽快接单处理。")
    else if str_eq e "SUBMIT_COMPLETION"
    then ("报修已完工待验收", "你的报修已提交完工，请及时验收。")
    else if str_eq e "SUBMIT_REWORK_COMPLETION"
    then ("返工已完成待验收", "返工处理已提交完工，请及时验收。")
    else if str_eq e "REQUEST_REWORK"
    then ("报修工单被要求返工", "验收未通过，请查看返工要求并重新处理。")
    else if str_eq e "HIGH_RISK_HANDOVER"
    then ("高风险报修待人工接管", "收到一条高风险报修，已创建人工接管单，请立即联系住户并现场核实。")
    else (str_append "报修工单事件 " e, str_append "报修工单发生事件：" (str_append e "。"))

abbrev pub message_key : ℕ → String → ℕ → Text → Text
message_key resource event receiver request_id =
    chars "REPAIR:"
    ++ (uuid_text resource
        ++ (chars ":"
            ++ (chars event ++ (chars ":" ++ (uuid_text receiver ++ (chars ":" ++ request_id))))))

-- `PlatformMessagePort.enqueue`.
abbrev pub notice : ℕ → String → ℕ → Text → Notice
notice resource event receiver request_id = record {
  receiver_id = receiver;
  business_type = "REPAIR";
  resource_id = uuid_text resource;
  title = (template event).0;
  body = (template event).1;
  idempotency_key = message_key resource event receiver request_id;
}

abbrev pub enqueue_message : Environment → RequestContext → String → ℕ → ℕ → RepairDb → RepairDb
enqueue_message env c event resource receiver s = record s {
  platform = record s.platform {
    messages =
        (enqueue env.sha256_hex (env.message_id receiver) env.now
          (notice resource event receiver c.request_id) s.platform.messages).1;
  };
}

-- Who is told of an action.
abbrev pub action_receiver : WorkOrder → ActionCode → Option ℕ
action_receiver w assign = w.assignee_id
action_receiver w submit_completion = some w.reporter_id
action_receiver w submit_rework_completion = some w.reporter_id
action_receiver w request_rework = w.assignee_id
action_receiver w _ = none

-- `_enqueue_action_message`.
abbrev pub enqueue_action_message :
    Environment → WorkOrder → ActionCode → RequestContext → RepairDb → RepairDb
enqueue_action_message env w action c s = elim (action_receiver w action) [
  | none ↦ s
  | some receiver ↦ enqueue_message env c (action_value action) w.id receiver s
]

-- Who may see a work order of the community.
unfoldable pub may_see : RequestContext → WorkOrder → Bool
may_see c w =
    not (restricted_to c resident && not (mem_id w.house_id c.house_ids))
    && not (restricted_to c repair_worker && not (is_id w.assignee_id c.actor_id))

-- `_get_authorized`.
unfoldable pub get_authorized : ℕ → RequestContext → Action RepairDb RepairError WorkOrder
get_authorized i c = do
  require_role c read_roles
  w ← or_raise (← gets (get i c.community_id)) not_found
  require (may_see c w) not_found
  pure w
