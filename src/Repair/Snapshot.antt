-- ===== src/Repair/Snapshot.antt =====
-- `_snapshot` and `_from_snapshot` of src/property_agent/repair/application/service.py. Identifiers
-- and moments are written and read by the standard library and stay as they are; an enumeration is
-- stored as its value, and a value that is no member raises.
use property_community_agent.Base.{ℕ, ◌≡◌, refl, String, Bool, Option, none, some, Text}
use property_community_agent.Repair.Enums.{
  status_value, category_value, urgency_value, status_of_value, category_of_value, urgency_of_value,
  status_of_value-status_value, category_of_value-category_value, urgency_of_value-urgency_value,
  WorkOrderStatus, RepairCategory, Urgency,
}
use property_community_agent.Repair.WorkOrder.{WorkOrder}

pub record Snapshot : Type 0 where
  pub id : ℕ
  pub community_id : ℕ
  pub business_no : Text
  pub house_id : ℕ
  pub reporter_id : ℕ
  pub category : String
  pub location : Text
  pub description : Text
  pub urgency : String
  pub create_idempotency_key : Text
  pub status : String
  pub assignee_id : Option ℕ
  pub version : ℕ
  pub created_at : ℕ
  pub updated_at : ℕ
  pub closed_at : Option ℕ
  pub appointment_at : Option ℕ
  pub has_review : Bool

-- A stored response: of a work order, or of a handover (the ticket and the number of people told).
pub data Response : Type 0 where
  work_order_response : Snapshot → Response
  handover_response : ℕ → ℕ → Response

unfoldable pub snapshot : WorkOrder → Snapshot
snapshot w = record {
  id = w.id;
  community_id = w.community_id;
  business_no = w.business_no;
  house_id = w.house_id;
  reporter_id = w.reporter_id;
  category = category_value w.category;
  location = w.location;
  description = w.description;
  urgency = urgency_value w.urgency;
  create_idempotency_key = w.create_idempotency_key;
  status = status_value w.status;
  assignee_id = w.assignee_id;
  version = w.version;
  created_at = w.created_at;
  updated_at = w.updated_at;
  closed_at = w.closed_at;
  appointment_at = w.appointment_at;
  has_review = w.has_review;
}

abbrev build_work_order :
    Option RepairCategory → Option Urgency → Option WorkOrderStatus → Snapshot → Option WorkOrder
build_work_order (some category) (some urgency) (some status) s = some (record {
  row = record {
    id = s.id;
    community_id = s.community_id;
    business_no = s.business_no;
    house_id = s.house_id;
    reporter_id = s.reporter_id;
    category = category;
    location = s.location;
    description = s.description;
    urgency = urgency;
    create_idempotency_key = s.create_idempotency_key;
    status = status;
    assignee_id = s.assignee_id;
    version = s.version;
    created_at = s.created_at;
    updated_at = s.updated_at;
    closed_at = s.closed_at;
    appointment_at = s.appointment_at;
  };
  has_review = s.has_review;
})
build_work_order _ _ _ s = none

unfoldable pub from_snapshot : Snapshot → Option WorkOrder
from_snapshot s =
    build_work_order (category_of_value s.category) (urgency_of_value s.urgency)
      (status_of_value s.status) s

-- The response that a replay returns; a response of another kind has no such keys and raises.
abbrev pub from_response : Response → Option WorkOrder
from_response (work_order_response s) = from_snapshot s
from_response (handover_response _ _) = none

-- A work order comes back from its snapshot unchanged.
pub from_snapshot-snapshot : (w : WorkOrder) → from_snapshot (snapshot w) ≡ some w
unfolding from_snapshot snapshot
from_snapshot-snapshot w =
    rw
      (
        category_of_value-category_value w.category,
        urgency_of_value-urgency_value w.urgency,
        status_of_value-status_value w.status,
      )
      refl
