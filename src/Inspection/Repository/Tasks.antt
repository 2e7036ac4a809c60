-- ===== src/Inspection/Repository/Tasks.antt =====
-- The rows of tasks, their status log and records in inspection/infrastructure/repository.py.
use property_community_agent.Base.{
  ℕ, ◌+◌, String, Bool, not, ◌&&◌, ◌||◌, Option, none, some, List, [], ◌∷◌, ◌++◌, map, ◌==◌,
  if◌then◌else◌, is_id, find, select, take, drop, update_where, count_where, ok, err, Action,
}
use property_community_agent.Inspection.Enums.{
  security_staff, manager, TaskStatus, planned, assigned, in_progress, status_value, status_eq,
  record_type_value,
}
use property_community_agent.Inspection.Errors.{InspectionError, version_conflict}
use property_community_agent.Inspection.Task.{InspectionTask}
use property_community_agent.Inspection.Commands.{
  RequestContext, has_any_role, InspectionTaskSearch, TimelineEntry,
}
use property_community_agent.Inspection.Repository.Tables.{TaskStatusLog, TaskRecord, InspectionDb}
use property_community_agent.Inspection.Repository.Order.{
  is_among, empty_or, newest_first, oldest_first, entry_created_at,
}

-- `add_task`.
abbrev pub add_task : InspectionTask → InspectionDb → InspectionDb
add_task t s = record s { tasks = s.tasks ++ t ∷ [] }

-- The row that `save_task` may overwrite: of the same task and community, at the version before.
abbrev pub is_previous_task : InspectionTask → InspectionTask → Bool
is_previous_task t m =
    m.id == t.id && (m.community_id == t.community_id && m.version + 1 == t.version)

abbrev pub write_task : InspectionTask → InspectionTask → InspectionTask
write_task t m = record m {
  status = t.status;
  assignee_id = t.assignee_id;
  version = t.version;
  updated_at = t.updated_at;
  closed_at = t.closed_at;
  ai_suggestions = t.ai_suggestions;
  ai_pending_confirm = t.ai_pending_confirm;
}

abbrev pub has_task_id : ℕ → InspectionTask → Bool
has_task_id i m = m.id == i

-- `current or task.version`.
abbrev pub reported_task_version : Option InspectionTask → InspectionTask → ℕ
reported_task_version none t = t.version
reported_task_version (some m) t = if m.version == 0 then t.version else m.version

-- `save_task`: the optimistic lock is the number of rows that the UPDATE hits.
unfoldable pub save_task : InspectionTask → Action InspectionDb InspectionError (Unit {0})
save_task t s =
    if count_where (is_previous_task t) s.tasks == 1
    then ok (tt, record s { tasks = update_where (is_previous_task t) (write_task t) s.tasks })
    else err (version_conflict (reported_task_version (find (has_task_id t.id) s.tasks) t))

abbrev pub task_in_community : ℕ → ℕ → InspectionTask → Bool
task_in_community i community m = m.id == i && m.community_id == community

-- `get_task`.
unfoldable pub get_task : ℕ → ℕ → InspectionDb → Option InspectionTask
get_task i community s = find (task_in_community i community) s.tasks

-- The WHERE clauses that `list_tasks` and `aggregate_task_statuses` share.
unfoldable pub is_listed_task : ℕ → InspectionTaskSearch → RequestContext → InspectionTask → Bool
is_listed_task community q c m =
    m.community_id == community
    && (empty_or q.statuses (is_among q.statuses (status_value m.status))
        && ((not q.assigned_to_me || is_id m.assignee_id c.actor_id)
            && (not (has_any_role c (security_staff ∷ []) && not (has_any_role c (manager ∷ [])))
                || is_id m.assignee_id c.actor_id)))

abbrev task_created_at : InspectionTask → ℕ
task_created_at t = t.created_at

-- `list_tasks`.
unfoldable pub list_tasks :
    ℕ → InspectionTaskSearch → RequestContext → InspectionDb → List InspectionTask
unfolding is_listed_task newest_first
list_tasks community q c s =
    take q.limit
      (drop q.offset (newest_first task_created_at (select (is_listed_task community q c) s.tasks)))

abbrev pub has_status : TaskStatus → InspectionTask → Bool
has_status status t = status_eq t.status status

-- `aggregate_task_statuses`: the count of a status, which is absent from the dictionary at zero.
unfoldable pub aggregate_task_statuses :
    ℕ → InspectionTaskSearch → RequestContext → InspectionDb → TaskStatus → ℕ
unfolding is_listed_task
aggregate_task_statuses community q c s status =
    count_where (has_status status) (select (is_listed_task community q c) s.tasks)

-- `find_active_tasks`.
abbrev pub is_active : ℕ → InspectionTask → Bool
is_active community t =
    t.community_id == community
    && (status_eq t.status planned
        || (status_eq t.status assigned || status_eq t.status in_progress))

unfoldable pub find_active_tasks : ℕ → InspectionDb → List InspectionTask
find_active_tasks community s = select (is_active community) s.tasks

abbrev pub add_task_status_log : TaskStatusLog → InspectionDb → InspectionDb
add_task_status_log l s = record s { task_logs = s.task_logs ++ l ∷ [] }

abbrev pub add_task_record : TaskRecord → InspectionDb → InspectionDb
add_task_record r s = record s { task_records = s.task_records ++ r ∷ [] }

abbrev option_status : Option TaskStatus → Option String
option_status none = none
option_status (some s) = some (status_value s)

abbrev pub task_status_entry : TaskStatusLog → TimelineEntry
task_status_entry l = record {
  entry_type = "STATUS";
  action = l.action_code;
  operator_id = l.operator_id;
  created_at = l.created_at;
  from_status = option_status l.from_status;
  to_status = some (status_value l.to_status);
  reason = l.reason;
  note = none;
  attachment_ids = [];
}

abbrev pub task_record_entry : TaskRecord → TimelineEntry
task_record_entry r = record {
  entry_type = "RECORD";
  action = record_type_value r.record_type;
  operator_id = r.operator_id;
  created_at = r.created_at;
  from_status = none;
  to_status = none;
  reason = none;
  note = some r.note;
  attachment_ids = r.attachment_ids;
}

abbrev task_log_of : ℕ → ℕ → TaskStatusLog → Bool
task_log_of i community l = l.task_id == i && l.community_id == community

abbrev task_record_of : ℕ → ℕ → TaskRecord → Bool
task_record_of i community r = r.task_id == i && r.community_id == community

-- `task_timeline`.
unfoldable pub task_timeline : ℕ → ℕ → InspectionDb → List TimelineEntry
unfolding oldest_first
task_timeline i community s = oldest_first entry_created_at (
    map task_status_entry (select (task_log_of i community) s.task_logs)
    ++ map task_record_entry (select (task_record_of i community) s.task_records))
