-- ===== src/Repair/Service/Create.antt =====
-- `create` and `_hand_over_high_risk` of src/property_agent/repair/application/service.py.
pub mod Effects
pub mod HighRisk
pub mod Orders
pub mod Kept
use property_community_agent.Base.{
  ℕ, zero, Bool, true, false, Option, none, some, List, [], ◌∷◌, ◌++◌, leb, ◌==◌, if◌then◌else◌,
  length, Text, strip, has_content, Result, ok, err, Action, ◌>>=◌, ◌>>◌, pure, found_or, raise,
  require, modify, gets, transact,
}
use property_community_agent.Platform.Tables.{SummaryValue, number, words, label, HandoverTicket}
use property_community_agent.Platform.Idempotency.{get_idempotency, read_stored}
use property_community_agent.Repair.Enums.{
  Urgency, normal, urgent, high_risk, pending_assignment, create, category_value, urgency_value,
}
use property_community_agent.Repair.Errors.{
  RepairError, validation_error, idempotency_conflict, confirmation_required, handover_required,
}
use property_community_agent.Repair.WorkOrder.{WorkOrder}
use property_community_agent.Repair.Commands.{RequestContext, CreateWorkOrderCommand}
use property_community_agent.Repair.Snapshot.{Response, work_order_response, handover_response}
use property_community_agent.Repair.Repository.{RepairDb, add}
use property_community_agent.Repair.Ports.{ensure_access, ensure_usable, consume, list_duty_staff}
use property_community_agent.Repair.Service.{
  Environment, CreateParameters, create_payload, create_roles, require_role,
  require_idempotency_key, key_of, idempotent_replay, record_response, add_response, add_status_log,
  audit, audit_row, add_audit, enqueue_message,
}

-- `_validate_create`.
unfoldable pub validate_create : CreateWorkOrderCommand → Action RepairDb RepairError (Unit {0})
validate_create k = do
  require (has_content k.location) (validation_error "location is required.")
  require (leb (length (strip k.location)) 128)
      (validation_error "location must not exceed 128 characters.")
  require (has_content k.description) (validation_error "description is required.")
  require (has_content k.confirmation_token) confirmation_required

abbrev pub confirmed_parameters : CreateWorkOrderCommand → CreateParameters
confirmed_parameters k = record {
  house_id = k.house_id;
  category = k.category;
  location = k.location;
  description = k.description;
  urgency = k.urgency;
  appointment_at = k.appointment_at;
  attachment_ids = k.attachment_ids;
}

abbrev pub request_hash : Environment → CreateWorkOrderCommand → ℕ
request_hash env k = env.canonical_hash (create_payload (confirmed_parameters k))

abbrev pub new_work_order : Environment → CreateWorkOrderCommand → RequestContext → Text → WorkOrder
new_work_order env k c key = record {
  row = record {
    id = env.new_id;
    community_id = c.community_id;
    business_no = env.business_no;
    house_id = k.house_id;
    reporter_id = c.actor_id;
    category = k.category;
    location = strip k.location;
    description = strip k.description;
    urgency = k.urgency;
    create_idempotency_key = key;
    status = pending_assignment;
    assignee_id = none;
    version = 1;
    created_at = env.now;
    updated_at = env.now;
    closed_at = none;
    appointment_at = k.appointment_at;
  };
  has_review = false;
}

-- The writes of a creation.
unfoldable pub insert_order :
    Environment
    → CreateWorkOrderCommand
    → RequestContext
    → Text
    → Action RepairDb RepairError WorkOrder
insert_order env k c key = do
  let w = new_work_order env k c key
  modify (add w)
  add_status_log w c create none none env.now
  modify (record_response c "CREATE_WORK_ORDER" key (request_hash env k) w)
  modify (
      audit w c create (
        ("house_id", number k.house_id)
        ∷ ("category", label (category_value k.category))
        ∷ ("urgency", label (urgency_value k.urgency))
        ∷ []))
  pure w

-- The guards of a creation: the house, the attachments, the confirmation for this operation.
unfoldable pub check_creation :
    Environment → CreateWorkOrderCommand → RequestContext → Action RepairDb RepairError (Unit {0})
check_creation env k c = do
  ensure_access c.actor_id c.community_id k.house_id
  ensure_usable k.attachment_ids c.actor_id c.community_id
  consume env.fence k.approval_ref k.confirmation_token c.actor_id "CREATE_WORK_ORDER"
      (request_hash env k) env.now

-- The transaction of an ordinary creation.
unfoldable pub create_order :
    Environment
    → CreateWorkOrderCommand
    → RequestContext
    → Text
    → Action RepairDb RepairError WorkOrder
create_order env k c key =
    found_or (idempotent_replay c "CREATE_WORK_ORDER" key (request_hash env k))
      (do check_creation env k c; insert_order env k c key)

abbrev pub risk_ticket : Environment → RequestContext → HandoverTicket
risk_ticket env c = record {
  id = env.new_id;
  community_id = c.community_id;
  requester_id = some c.actor_id;
  resource_type = "WORK_ORDER";
  resource_id = none;
  source = "REPAIR";
  queue = "CUSTOMER_SERVICE";
  reason = "HIGH_RISK";
  status = "PENDING";
}

abbrev pub add_ticket : HandoverTicket → RepairDb → RepairDb
add_ticket t s = record s {
  platform = record s.platform { handover_tickets = s.platform.handover_tickets ++ t ∷ [] };
}

-- The loop over the staff on duty.
unfoldable pub notify_staff : Environment → RequestContext → List ℕ → RepairDb → RepairDb
notify_staff env c [] s = s
notify_staff env c (receiver ∷ rest) s =
    notify_staff env c rest (enqueue_message env c "HIGH_RISK_HANDOVER" env.new_id receiver s)

-- The writes of a handover: the ticket, the messages, the response, the audit row.
unfoldable pub write_handover :
    Environment
    → CreateWorkOrderCommand
    → RequestContext
    → Text
    → Action RepairDb RepairError (ℕ × ℕ)
write_handover env k c key = do
  modify (add_ticket (risk_ticket env c))
  staff ← gets (list_duty_staff c.community_id)
  modify (notify_staff env c staff)
  modify (
      add_response (key_of c "CREATE_WORK_ORDER_HANDOVER" key) (request_hash env k) env.new_id
        (handover_response env.new_id (length staff)))
  modify (
      add_audit (
        audit_row c "HIGH_RISK_HANDOVER" "HANDOVER_TICKET" env.new_id (
          ("house_id", number k.house_id)
          ∷ ("category", label (category_value k.category))
          ∷ ("urgency", label (urgency_value k.urgency))
          ∷ ("notified_staff", number (length staff))
          ∷ [])))
  pure (env.new_id, length staff)

abbrev notified_of : Response → ℕ
notified_of (handover_response _ n) = n
notified_of (work_order_response _) = 0

abbrev pub stored_handover : ℕ → Response → Result RepairError (ℕ × ℕ)
stored_handover resource response = ok (resource, notified_of response)

-- The lookup at the head of the handover.
unfoldable pub handover_replay :
    RequestContext → Text → ℕ → Action RepairDb RepairError (Option (ℕ × ℕ))
handover_replay c key hash s =
    read_stored stored_handover idempotency_conflict
      (get_idempotency (key_of c "CREATE_WORK_ORDER_HANDOVER" key) s.idempotency) hash s

-- The part of a handover that runs when no response is stored.
unfoldable pub run_handover :
    Environment
    → CreateWorkOrderCommand
    → RequestContext
    → Text
    → Action RepairDb RepairError (ℕ × ℕ)
run_handover env k c key = do
  ensure_access c.actor_id c.community_id k.house_id
  ensure_usable k.attachment_ids c.actor_id c.community_id
  consume env.fence k.approval_ref k.confirmation_token c.actor_id "CREATE_WORK_ORDER_HANDOVER"
      (request_hash env k) env.now
  write_handover env k c key

-- `_hand_over_high_risk`.
unfoldable pub hand_over_high_risk :
    Environment
    → CreateWorkOrderCommand
    → RequestContext
    → Text
    → Action RepairDb RepairError (ℕ × ℕ)
hand_over_high_risk env k c key =
    found_or (handover_replay c key (request_hash env k)) (run_handover env k c key)

abbrev pub to_error :
    Result RepairError (ℕ × ℕ) × RepairDb → Result RepairError WorkOrder × RepairDb
to_error (ok (ticket, notified), s) = (err (handover_required ticket notified), s)
to_error (err e, s) = (err e, s)

-- What `create` checks before it opens a transaction.
unfoldable pub check_request :
    CreateWorkOrderCommand → RequestContext → Text → Action RepairDb RepairError (Unit {0})
unfolding validate_create
check_request k c key = do
  require_role c create_roles
  require_idempotency_key key
  validate_create k

-- `create`: the result, or the exception, and the tables after it. A high-risk report commits its
-- handover and then raises.
unfoldable pub create_work_order :
    Environment
    → CreateWorkOrderCommand
    → RequestContext
    → Text
    → RepairDb
    → Result RepairError WorkOrder × RepairDb
create_work_order env k c key s = elim (check_request k c key s) [
  | err e ↦ (err e, s)
  | ok _ ↦ elim k.urgency [
    | high_risk ↦ to_error (transact (hand_over_high_risk env k c key) s)
    | _ ↦ transact (create_order env k c key) s
  ]
]
