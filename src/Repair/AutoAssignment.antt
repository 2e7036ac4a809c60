-- ===== src/Repair/AutoAssignment.antt =====
-- src/property_agent/repair/application/auto_assignment.py: the choice of a worker for an order that
-- the agent created, and its assignment through the service.
pub mod Candidates
pub mod Retries
use property_community_agent.Base.{
  ℕ, ◌+◌, String, Bool, true, false, ◌&&◌, ◌||◌, Option, none, some, List, [], ◌∷◌, ◌++◌, leb, ltb,
  ◌==◌, if◌then◌else◌, str_eq, str_append, is_id, any, find, select, take, count_where, Text, chars,
  uuid_text, Result, ok, err, Action, transact,
}
use property_community_agent.Platform.Tables.{User, UserRole, House}
use property_community_agent.Repair.Enums.{
  Role, manager, WorkOrderStatus, pending_assignment, pending_acceptance, processing, reworking,
  assign, status_eq,
}
use property_community_agent.Repair.Errors.{RepairError, version_conflict}
use property_community_agent.Repair.WorkOrder.{WorkOrderModel, WorkOrder}
use property_community_agent.Repair.Commands.{
  RequestContext, CreateWorkOrderCommand, ExecuteActionCommand,
}
use property_community_agent.Repair.Repository.{RepairDb}
use property_community_agent.Repair.Ports.{has_house_id}
use property_community_agent.Repair.Service.{Environment, get_authorized}
use property_community_agent.Repair.Service.Execute.{execute_action}
use property_community_agent.Repair.Service.Create.{create_work_order}

-- `OPEN_ASSIGNED_STATUSES`.
abbrev pub is_open_assigned : WorkOrderStatus → Bool
is_open_assigned pending_acceptance = true
is_open_assigned processing = true
is_open_assigned reworking = true
is_open_assigned _ = false

abbrev pub burdens : ℕ → WorkOrderModel → Bool
burdens i m = is_id m.assignee_id i && is_open_assigned m.status

-- The worker's open orders, of every community.
unfoldable pub workload : ℕ → RepairDb → ℕ
workload i s = count_where (burdens i) s.work_orders

abbrev pub in_scopes : Option House → String → Bool
in_scopes none scope = str_eq scope "*"
in_scopes (some h) scope =
    str_eq scope "*"
    || (str_eq scope h.building || str_eq scope (str_append "BUILDING:" h.building))

abbrev still_valid : Option ℕ → ℕ → Bool
still_valid none now = true
still_valid (some until) now = ltb now until

abbrev pub qualifies : ℕ → Option House → ℕ → UserRole → Bool
qualifies now house i r =
    r.user_id == i
    && (str_eq r.role "REPAIR_WORKER"
        && (in_scopes house r.scope && (leb r.valid_from now && still_valid r.valid_until now)))

-- The WHERE clauses of the query.
unfoldable pub is_eligible : ℕ → WorkOrder → RepairDb → User → Bool
is_eligible now w s u =
    u.community_id == w.community_id
    && (str_eq u.status "ACTIVE"
        && any (qualifies now (find (has_house_id w.house_id) s.platform.houses) u.id)
            s.platform.user_roles)

-- `ORDER BY workload, id`.
unfoldable pub goes_first : RepairDb → User → User → Bool
unfolding workload
goes_first s u v =
    ltb (workload u.id s) (workload v.id s) || workload u.id s == workload v.id s && leb u.id v.id

abbrev pub choose : RepairDb → User → Option User → User
choose s u none = u
choose s u (some v) = if goes_first s u v then u else v

unfoldable pub first_of : RepairDb → List User → Option User
unfolding goes_first
first_of s [] = none
first_of s (u ∷ us) = some (choose s u (first_of s us))

-- `_select_candidate`.
unfoldable pub select_candidate : ℕ → WorkOrder → RepairDb → Option User
unfolding first_of is_eligible
select_candidate now w s = first_of s (select (is_eligible now w s) s.platform.users)

abbrev only_manager : Role → Bool
only_manager manager = true
only_manager _ = false

abbrev pub system_dispatcher_id : ℕ
system_dispatcher_id = 0

abbrev pub dispatcher : WorkOrder → Text → RequestContext
dispatcher w request_id = record {
  actor_id = system_dispatcher_id;
  community_id = w.community_id;
  roles = only_manager;
  request_id = take 64 (request_id ++ chars "-auto-assign");
  house_ids = [];
}

abbrev pub assignment : WorkOrder → ℕ → ExecuteActionCommand
assignment w worker = record {
  action = assign;
  expected_version = w.version;
  assignee_id = some worker;
  reason = none;
  note = none;
  record_type = none;
  appointment_at = none;
  attachment_ids = [];
}

abbrev pub assignment_key : WorkOrder → Text
assignment_key w = chars "auto-assign:" ++ uuid_text w.id

abbrev pub or_reread :
    Result RepairError (WorkOrder × RepairDb)
    → WorkOrder
    → Text
    → Action RepairDb RepairError WorkOrder
or_reread (ok p) w request_id s = ok p
or_reread (err (version_conflict v)) w request_id s =
    get_authorized w.id (dispatcher w request_id) s
or_reread (err e) w request_id s = err e

abbrev pub assign_to :
    Option User → Environment → WorkOrder → Text → Action RepairDb RepairError WorkOrder
assign_to none env w request_id s = ok (w, s)
assign_to (some u) env w request_id s =
    or_reread
      (execute_action env w.id (assignment w u.id) (dispatcher w request_id) (assignment_key w) s) w
      request_id s

-- `assign`.
unfoldable pub assign_automatically :
    Environment → WorkOrder → Text → Action RepairDb RepairError WorkOrder
unfolding select_candidate
assign_automatically env w request_id s =
    if status_eq w.status pending_assignment
    then assign_to (select_candidate env.now w s) env w request_id s
    else ok (w, s)

-- `create` of the facade for agents: the creation commits before the assignment starts.
unfoldable pub create_and_assign :
    Environment
    → Environment
    → CreateWorkOrderCommand
    → RequestContext
    → Text
    → RepairDb
    → Result RepairError WorkOrder × RepairDb
create_and_assign env env2 k c key s =
    let (answer, t) = create_work_order env k c key s in
    elim answer [
      | err e ↦ (err e, t)
      | ok w ↦ transact (assign_automatically env2 w c.request_id) t
    ]
