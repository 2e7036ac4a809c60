-- ===== src/Repair/TestData.antt =====
-- One community with a manager, a resident of a house, and a repair worker, as test data for the
-- repair package.
use property_community_agent.Base.{
  ℕ, ◌+◌, Bool, true, false, none, some, List, [], ◌∷◌, Text, chars, Result, ok, err,
}
use property_community_agent.Platform.Tables.{PlatformDb, Attachment}
use property_community_agent.Repair.Enums.{
  Role, resident, repair_worker, manager, water_plumbing, normal, high_risk, pending_acceptance,
  closed, ActionCode, assign,
}
use property_community_agent.Repair.WorkOrder.{apply_transition, WorkOrderModel, WorkOrder}
use property_community_agent.Repair.Commands.{
  RequestContext, CreateWorkOrderCommand, ExecuteActionCommand, CreateReviewCommand,
  WorkOrderSearch,
}
use property_community_agent.Repair.Repository.{RepairDb, write_columns}
use property_community_agent.Repair.Service.{
  Environment, Payload, create_payload, action_payload, review_payload,
}
use property_community_agent.Repair.Service.Create.{
  new_work_order, hand_over_high_risk, create_work_order,
}
use property_community_agent.Repair.Service.Execute.{run_action}
use property_community_agent.Repair.Service.Reviews.{run_review}

abbrev pub hash_of : Payload → ℕ
hash_of (create_payload p) = p.house_id
hash_of (action_payload i k) = i + k.expected_version
hash_of (review_payload i k) = i + k.rating

abbrev pub env : Environment
env = record {
  now = 1000;
  new_id = 200;
  business_no = chars "WX";
  message_id = λ i. 300 + i;
  fence = record { enforce_fence = false; current = none };
  canonical_hash = hash_of;
  sha256_hex = λ t. t;
}

abbrev pub is_manager : Role → Bool
is_manager manager = true
is_manager _ = false

abbrev pub is_worker : Role → Bool
is_worker repair_worker = true
is_worker _ = false

abbrev pub is_resident : Role → Bool
is_resident resident = true
is_resident _ = false

abbrev pub the_manager : RequestContext
the_manager = record {
  actor_id = 10;
  community_id = 1;
  roles = is_manager;
  request_id = chars "r1";
  house_ids = [];
}

abbrev pub the_worker : RequestContext
the_worker = record {
  actor_id = 30;
  community_id = 1;
  roles = is_worker;
  request_id = chars "r2";
  house_ids = [];
}

abbrev pub the_resident : RequestContext
the_resident = record {
  actor_id = 20;
  community_id = 1;
  roles = is_resident;
  request_id = chars "r3";
  house_ids = 5 ∷ [];
}

abbrev pub platform : PlatformDb
platform = record {
  approvals = [];
  tokens =
      record {
        token = chars "t";
        actor_id = 20;
        action = "CREATE_WORK_ORDER";
        parameter_hash = 5;
        expires_at = 5000;
        consumed_at = none;
      }
      ∷ record {
        token = chars "h";
        actor_id = 20;
        action = "CREATE_WORK_ORDER_HANDOVER";
        parameter_hash = 5;
        expires_at = 5000;
        consumed_at = none;
      }
      ∷ [];
  users =
      record { id = 10; community_id = 1; status = "ACTIVE" }
      ∷ record { id = 20; community_id = 1; status = "ACTIVE" }
      ∷ record { id = 30; community_id = 1; status = "ACTIVE" }
      ∷ [];
  user_roles =
      record { user_id = 10; role = "MANAGER"; scope = "*"; valid_from = 0; valid_until = none }
      ∷ record { user_id = 20; role = "RESIDENT"; scope = "*"; valid_from = 0; valid_until = none }
      ∷ record {
        user_id = 30;
        role = "REPAIR_WORKER";
        scope = "*";
        valid_from = 0;
        valid_until = none;
      }
      ∷ [];
  houses = record { id = 5; community_id = 1; building = "B1" } ∷ [];
  house_bindings = record { user_id = 20; house_id = 5; status = "ACTIVE" } ∷ [];
  attachments = [];
  run_leases = [];
  messages = [];
  handover_tickets = [];
  audit_logs = [];
}

abbrev pub no_orders : RepairDb
no_orders = record {
  platform = platform;
  work_orders = [];
  status_logs = [];
  process_records = [];
  reviews = [];
  idempotency = [];
}

abbrev pub leaking_tap : CreateWorkOrderCommand
leaking_tap = record {
  house_id = 5;
  category = water_plumbing;
  location = chars " sink ";
  description = chars "drip";
  urgency = normal;
  confirmation_token = chars "t";
  approval_ref = none;
  appointment_at = none;
  attachment_ids = [];
}

abbrev pub gas_leak : CreateWorkOrderCommand
gas_leak = record leaking_tap { urgency = high_risk; confirmation_token = chars "h" }

abbrev pub do_action : ActionCode → ℕ → ExecuteActionCommand
do_action a version = record {
  action = a;
  expected_version = version;
  assignee_id = some 30;
  reason = none;
  note = none;
  record_type = none;
  appointment_at = none;
  attachment_ids = [];
}

abbrev pub value_of : {E A : Type 0} → Result E A → A → A
value_of (ok a) b = a
value_of (err e) b = b

abbrev pub key2 : Text
key2 = chars "k2"

abbrev pub key1 : Text
key1 = chars "k1"

abbrev pub first_order : WorkOrder
first_order = new_work_order env leaking_tap the_resident key1

abbrev pub with_order : RepairDb
with_order = record no_orders { work_orders = first_order.row ∷ [] }

abbrev pub after_create : RepairDb
after_create = (create_work_order env leaking_tap the_resident key1 no_orders).1

-- The order is assigned to the worker.
abbrev pub assigned : WorkOrder × RepairDb
assigned =
    value_of (run_action env 200 (do_action assign 1) the_manager key1 with_order)
      (first_order, with_order)

abbrev pub handed : (ℕ × ℕ) × RepairDb
handed = value_of (hand_over_high_risk env gas_leak the_resident key1 no_orders) ((0, 0), no_orders)

abbrev pub closed_order : WorkOrderModel
closed_order = record first_order.row {
  status = closed;
  assignee_id = some 30;
  version = 5;
  closed_at = some 900;
}

abbrev pub with_closed : RepairDb
with_closed = record no_orders { work_orders = closed_order ∷ [] }

abbrev pub five_stars : CreateReviewCommand
five_stars = record { rating = 5; comment = some (chars "ok") }

abbrev pub reviewed : WorkOrder × RepairDb
reviewed =
    value_of (run_review env 200 five_stars the_resident key1 with_closed)
      (first_order, with_closed)

abbrev pub all_orders : WorkOrderSearch
all_orders = record {
  house_id = none;
  statuses = [];
  assigned_to_me = false;
  limit = 10;
  offset = 0;
}

abbrev pub next_version : WorkOrder
next_version = record first_order { row = record first_order.row { version = 2 } }

abbrev pub saved : RepairDb
saved = record with_order { work_orders = write_columns next_version first_order.row ∷ [] }

abbrev pub with_worker : WorkOrder
with_worker = record first_order { row = record first_order.row { assignee_id = some 30 } }

abbrev pub dispatched_order : WorkOrder
dispatched_order = apply_transition assign pending_acceptance 1000 with_worker

abbrev pub photo : Attachment
photo = record {
  id = 7;
  community_id = 1;
  uploader_id = 20;
  status = "UPLOADED";
  content_type = "image/png";
  size_bytes = 1024;
}

abbrev pub one_photo : List ℕ
one_photo = 7 ∷ []

abbrev pub with_photo : RepairDb
with_photo = record no_orders { platform = record platform { attachments = photo ∷ [] } }
