-- ===== src/Inspection/Tasks.antt =====
-- InspectionTaskService of src/property_agent/inspection/application/service.py: `create_task` with its
-- checks. The other operations are in the child modules.
pub mod Handlers
pub mod Execute
pub mod Suggestions
pub mod Queries
pub mod Plans
pub mod Planning
use property_community_agent.Base.{
  ℕ, String, Bool, true, false, not, ◌&&◌, ◌||◌, Option, none, some, List, [], ◌∷◌, ◌++◌, map, leb,
  ltb, if◌then◌else◌, is_some, any, find, select, length, Text, text_eq, strip, has_content, Result,
  ok, err, Action, ◌>>=◌, ◌>>◌, pure, raise, require, modify,
}
use property_community_agent.Platform.Tables.{SummaryValue, words, number}
use property_community_agent.Inspection.Enums.{
  Role, security_staff, manager, TaskStatus, planned, TaskAction, create,
}
use property_community_agent.Inspection.Errors.{InspectionError, validation_error, plan_conflict}
use property_community_agent.Inspection.Task.{InspectionTask}
use property_community_agent.Inspection.Commands.{RequestContext, Command, CreateTask}
use property_community_agent.Inspection.Snapshot.{task_of_response}
use property_community_agent.Inspection.Repository.{
  InspectionDb, TaskStatusLog, add_task, find_active_tasks, add_task_status_log,
}
use property_community_agent.Inspection.Ports.{consume_agent_write}
use property_community_agent.Inspection.Service.{
  Environment, create_task_payload, require_role, require_idempotency_key, operator_role,
  lift_result, or_replay, record_task, audit_row, add_audit,
}

abbrev pub task_read_roles : List Role
task_read_roles = manager ∷ security_staff ∷ []

abbrev pub task_create_roles : List Role
task_create_roles = manager ∷ security_staff ∷ []

abbrev pub is_after : Option ℕ → Option ℕ → Bool
is_after (some a) (some b) = ltb b a
is_after _ _ = false

-- `_time_overlaps`: a missing bound is no bound.
unfoldable pub time_overlaps : Option ℕ → Option ℕ → Option ℕ → Option ℕ → Bool
time_overlaps a_start a_end b_start b_end =
    not (is_after a_start b_end) && not (is_after b_start a_end)

abbrev pub is_point : List Text → Text → Bool
is_point ps p = any (text_eq p) ps

-- `new_points & set(task.route_points)` is not empty.
unfoldable pub shares_point : List Text → List Text → Bool
shares_point ps qs = any (is_point qs) ps

-- The route points that are not blank, stripped.
unfoldable pub clean_points : List Text → List Text
clean_points ps = map strip (select has_content ps)

abbrev pub conflicts_with : List Text → CreateTask → InspectionTask → Bool
conflicts_with points k t =
    shares_point points t.route_points && time_overlaps k.planned_at k.due_at t.planned_at t.due_at

abbrev refuse_conflict : Option InspectionTask → Action InspectionDb InspectionError (Unit {0})
refuse_conflict none = pure tt
refuse_conflict (some t) = raise (plan_conflict t.business_no)

abbrev pub is_timed : Option ℕ → Option ℕ → Bool
is_timed planned_at due_at = is_some planned_at || is_some due_at

-- `_validate_plan_conflict`: the first active task in conflict is named.
unfoldable pub validate_plan_conflict :
    CreateTask → RequestContext → Action InspectionDb InspectionError (Unit {0})
unfolding shares_point clean_points time_overlaps find_active_tasks
validate_plan_conflict k c s =
    if is_timed k.planned_at k.due_at
    then refuse_conflict
        (find (conflicts_with (clean_points k.route_points) k) (find_active_tasks c.community_id s))
        s
    else ok (tt, s)

-- `_validate_create`.
unfoldable pub validate_create : CreateTask → Action InspectionDb InspectionError (Unit {0})
validate_create k = do
  require (has_content k.title) (validation_error "title is required.")
  require (leb (length (strip k.title)) 128)
      (validation_error "title must not exceed 128 characters.")
  require (has_content k.description) (validation_error "description is required.")
  require (any has_content k.route_points)
      (validation_error "At least one route point is required.")
  require (not (is_after k.planned_at k.due_at))
      (validation_error "due_at must not be earlier than planned_at.")

abbrev pub new_task : Environment → CreateTask → RequestContext → Text → InspectionTask
new_task env k c key = record {
  id = env.new_id;
  community_id = c.community_id;
  business_no = env.business_no;
  title = strip k.title;
  description = strip k.description;
  route_points = clean_points k.route_points;
  created_by = c.actor_id;
  create_idempotency_key = key;
  status = planned;
  assignee_id = none;
  planned_at = k.planned_at;
  due_at = k.due_at;
  version = 1;
  created_at = env.now;
  updated_at = env.now;
  closed_at = none;
  ai_suggestions = [];
  ai_pending_confirm = false;
}

abbrev pub task_log :
    InspectionTask
    → RequestContext
    → String
    → Option TaskStatus
    → Role
    → Option Text
    → ℕ
    → TaskStatusLog
task_log t c action from role reason now = record {
  community_id = c.community_id;
  task_id = t.id;
  from_status = from;
  action_code = action;
  to_status = t.status;
  operator_id = c.actor_id;
  operator_role = role;
  reason = reason;
  request_id = c.request_id;
  created_at = now;
}

-- `_add_task_status_log`.
unfoldable pub log_task :
    InspectionTask
    → RequestContext
    → String
    → Option TaskStatus
    → Option Text
    → ℕ
    → Action InspectionDb InspectionError (Unit {0})
log_task t c action from reason now = do
  role ← lift_result (operator_role c)
  modify (add_task_status_log (task_log t c action from role reason now))

-- The writes of `create_task` once its checks are passed.
unfoldable pub insert_task :
    Environment
    → CreateTask
    → RequestContext
    → Text
    → Action InspectionDb InspectionError InspectionTask
unfolding log_task
insert_task env k c key = do
  let t = new_task env k c key
  modify (add_task t)
  log_task t c "CREATE" none none env.now
  modify (record_task c "INSPECTION_TASK_CREATE" key (env.canonical_hash (create_task_payload k)) t)
  modify (
      add_audit (
        audit_row c "CREATE" "INSPECTION_TASK" t.id
          (("title", words t.title) ∷ ("points", number (length t.route_points)) ∷ [])))
  pure t

-- The part of `create_task` that runs when no response is stored.
unfoldable pub plan_task :
    Environment
    → Command CreateTask
    → RequestContext
    → Text
    → Action InspectionDb InspectionError InspectionTask
unfolding validate_create validate_plan_conflict insert_task
plan_task env k c key = do
  consume_agent_write env.fence c k.confirmation "INSPECTION_TASK_CREATE"
      (env.canonical_hash (create_task_payload k.business)) env.now
  validate_create k.business
  validate_plan_conflict k.business c
  insert_task env k.business c key

-- `create_task`.
unfoldable pub create_task :
    Environment
    → Command CreateTask
    → RequestContext
    → Text
    → Action InspectionDb InspectionError InspectionTask
create_task env k c key = do
  require_idempotency_key key
  require_role c task_create_roles
  or_replay task_of_response c "INSPECTION_TASK_CREATE" key
      (env.canonical_hash (create_task_payload k.business)) (plan_task env k c key)
