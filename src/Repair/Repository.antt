-- ===== src/Repair/Repository.antt =====
-- src/property_agent/repair/infrastructure/repository.py over the tables of
-- repair/infrastructure/models.py, in one session with the platform's tables.
pub mod Saving
use property_community_agent.Base.{
  ℕ, zero, suc, ◌+◌, String, Bool, true, false, not, ◌&&◌, ◌||◌, Option, none, some, List, [], ◌∷◌,
  ◌++◌, map, leb, ◌==◌, if◌then◌else◌, str_eq, is_id, any, find, select, take, drop, update_where,
  count_where, mem_id, Text, Result, ok, err, Action,
}
use property_community_agent.Platform.Tables.{PlatformDb}
use property_community_agent.Platform.Idempotency.{IdempotencyRecord}
use property_community_agent.Repair.Enums.{
  Role, resident, customer_service, repair_worker, manager, WorkOrderStatus, ActionCode,
  ProcessRecordType, appointment, arrival, progress, blocked, completion, status_value,
  action_value,
}
use property_community_agent.Repair.Errors.{RepairError, version_conflict}
use property_community_agent.Repair.WorkOrder.{WorkOrderModel, WorkOrder}
use property_community_agent.Repair.Commands.{
  RequestContext, has_any_role, WorkOrderSearch, TimelineEntry,
}
use property_community_agent.Repair.Snapshot.{Response}

pub record StatusLog : Type 0 where
  pub community_id : ℕ
  pub work_order_id : ℕ
  pub from_status : Option WorkOrderStatus
  pub action_code : ActionCode
  pub to_status : WorkOrderStatus
  pub operator_id : ℕ
  pub operator_role : Role
  pub reason : Option Text
  pub request_id : Text
  pub created_at : ℕ

pub record ProcessRecord : Type 0 where
  pub community_id : ℕ
  pub work_order_id : ℕ
  pub record_type : ProcessRecordType
  pub note : Text
  pub operator_id : ℕ
  pub appointment_at : Option ℕ
  pub attachment_ids : List ℕ
  pub created_at : ℕ

pub record Review : Type 0 where
  pub community_id : ℕ
  pub work_order_id : ℕ
  pub reviewer_id : ℕ
  pub rating : ℕ
  pub comment : Option Text
  pub created_at : ℕ

pub record RepairDb : Type 0 where
  pub platform : PlatformDb
  pub work_orders : List WorkOrderModel
  pub status_logs : List StatusLog
  pub process_records : List ProcessRecord
  pub reviews : List Review
  pub idempotency : List (IdempotencyRecord Response)

-- `_to_model` forgets whether there is a review; `_to_domain` reads it from the table of reviews.
abbrev pub is_review_of : ℕ → Review → Bool
is_review_of i r = r.work_order_id == i

abbrev pub to_domain : List Review → WorkOrderModel → WorkOrder
to_domain reviews m = record { row = m; has_review = any (is_review_of m.id) reviews }

-- `add`.
abbrev pub add : WorkOrder → RepairDb → RepairDb
add w s = record s { work_orders = s.work_orders ++ w.row ∷ [] }

-- The row that `save` may overwrite: of the same order and community, at the version before.
abbrev pub is_previous : WorkOrder → WorkOrderModel → Bool
is_previous w m = m.id == w.id && (m.community_id == w.community_id && m.version + 1 == w.version)

abbrev pub write_columns : WorkOrder → WorkOrderModel → WorkOrderModel
write_columns w m = record m {
  status = w.status;
  assignee_id = w.assignee_id;
  version = w.version;
  updated_at = w.updated_at;
  closed_at = w.closed_at;
  appointment_at = w.appointment_at;
}

abbrev pub has_order_id : ℕ → WorkOrderModel → Bool
has_order_id i m = m.id == i

-- `current_version or work_order.version`.
abbrev pub reported_version : Option WorkOrderModel → WorkOrder → ℕ
reported_version none w = w.version
reported_version (some m) w = if m.version == 0 then w.version else m.version

-- `save`: the optimistic lock is the number of rows that the UPDATE hits.
unfoldable pub save : WorkOrder → Action RepairDb RepairError (Unit {0})
save w s =
    if count_where (is_previous w) s.work_orders == 1
    then ok (
      tt,
      record s { work_orders = update_where (is_previous w) (write_columns w) s.work_orders },
    )
    else err (version_conflict (reported_version (find (has_order_id w.id) s.work_orders) w))

abbrev pub in_community : ℕ → ℕ → WorkOrderModel → Bool
in_community i community m = m.id == i && m.community_id == community

abbrev option_domain : List Review → Option WorkOrderModel → Option WorkOrder
option_domain reviews none = none
option_domain reviews (some m) = some (to_domain reviews m)

-- `get`.
unfoldable pub get : ℕ → ℕ → RepairDb → Option WorkOrder
get i community s = option_domain s.reviews (find (in_community i community) s.work_orders)

abbrev is_status_in : List String → WorkOrderStatus → Bool
is_status_in [] s = false
is_status_in (v ∷ vs) s = str_eq v (status_value s) || is_status_in vs s

abbrev empty_or : List String → Bool → Bool
empty_or [] b = true
empty_or (_ ∷ _) b = b

abbrev house_filter : Option ℕ → ℕ → Bool
house_filter none h = true
house_filter (some i) h = h == i

-- Who sees only part of the community's orders.
abbrev pub restricted_to : RequestContext → Role → Bool
restricted_to c r = c.roles r && not (has_any_role c (customer_service ∷ manager ∷ []))

-- The WHERE clauses of `list`.
unfoldable pub is_listed : ℕ → WorkOrderSearch → RequestContext → WorkOrderModel → Bool
is_listed community q c m =
    m.community_id == community
    && (house_filter q.house_id m.house_id
        && (empty_or q.statuses (is_status_in q.statuses m.status)
            && ((not q.assigned_to_me || is_id m.assignee_id c.actor_id)
                && ((not (restricted_to c resident) || mem_id m.house_id c.house_ids)
                    && (not (restricted_to c repair_worker) || is_id m.assignee_id c.actor_id)))))

unfoldable pub insert_newest_first : WorkOrderModel → List WorkOrderModel → List WorkOrderModel
insert_newest_first m [] = m ∷ []
insert_newest_first m (x ∷ xs) =
    let rest = insert_newest_first m xs in
    if leb x.created_at m.created_at then m ∷ x ∷ xs else x ∷ rest

-- `ORDER BY created_at DESC`.
unfoldable pub newest_first : List WorkOrderModel → List WorkOrderModel
unfolding insert_newest_first
newest_first [] = []
newest_first (m ∷ ms) = insert_newest_first m (newest_first ms)

-- `list`.
unfoldable pub list : ℕ → WorkOrderSearch → RequestContext → RepairDb → List WorkOrder
unfolding is_listed newest_first
list community q c s =
    map (to_domain s.reviews)
      (take q.limit (drop q.offset (newest_first (select (is_listed community q c) s.work_orders))))

abbrev record_type_value : ProcessRecordType → String
record_type_value appointment = "APPOINTMENT"
record_type_value arrival = "ARRIVAL"
record_type_value progress = "PROGRESS"
record_type_value blocked = "BLOCKED"
record_type_value completion = "COMPLETION"

abbrev option_status : Option WorkOrderStatus → Option String
option_status none = none
option_status (some s) = some (status_value s)

abbrev pub status_entry : StatusLog → TimelineEntry
status_entry l = record {
  entry_type = "STATUS";
  action = action_value l.action_code;
  operator_id = l.operator_id;
  created_at = l.created_at;
  from_status = option_status l.from_status;
  to_status = some (status_value l.to_status);
  reason = l.reason;
  note = none;
  appointment_at = none;
  attachment_ids = [];
}

abbrev pub process_entry : ProcessRecord → TimelineEntry
process_entry p = record {
  entry_type = "PROCESS";
  action = record_type_value p.record_type;
  operator_id = p.operator_id;
  created_at = p.created_at;
  from_status = none;
  to_status = none;
  reason = none;
  note = some p.note;
  appointment_at = p.appointment_at;
  attachment_ids = p.attachment_ids;
}

unfoldable pub insert_entry : TimelineEntry → List TimelineEntry → List TimelineEntry
insert_entry e [] = e ∷ []
insert_entry e (x ∷ xs) =
    let rest = insert_entry e xs in if leb e.created_at x.created_at then e ∷ x ∷ xs else x ∷ rest

unfoldable pub sort_entries : List TimelineEntry → List TimelineEntry
unfolding insert_entry
sort_entries [] = []
sort_entries (e ∷ es) = insert_entry e (sort_entries es)

abbrev log_of : ℕ → ℕ → StatusLog → Bool
log_of i community l = l.work_order_id == i && l.community_id == community

abbrev record_of : ℕ → ℕ → ProcessRecord → Bool
record_of i community p = p.work_order_id == i && p.community_id == community

-- `timeline`.
unfoldable pub timeline : ℕ → ℕ → RepairDb → List TimelineEntry
unfolding sort_entries
timeline i community s = sort_entries (
    map status_entry (select (log_of i community) s.status_logs)
    ++ map process_entry (select (record_of i community) s.process_records))
