-- ===== src/Inspection/Tasks/Queries.antt =====
-- The reading operations of InspectionTaskService in inspection/application/service.py.
use property_community_agent.Base.{
  ℕ, ◌+◌, ◌&&◌, List, [], ◌∷◌, if◌then◌else◌, Action, ◌>>=◌, ◌>>◌, gets,
}
use property_community_agent.Inspection.Enums.{
  manager, TaskStatus, planned, assigned, in_progress, submitted, completed, TaskAction, assign,
  start, submit_records, complete, add_record, status_eq,
}
use property_community_agent.Inspection.Errors.{InspectionError}
use property_community_agent.Inspection.Task.{InspectionTask}
use property_community_agent.Inspection.Commands.{
  RequestContext, has_any_role, InspectionTaskSearch, TimelineEntry,
}
use property_community_agent.Inspection.Repository.{
  InspectionDb, list_tasks, aggregate_task_statuses, task_timeline,
}
use property_community_agent.Inspection.Service.{require_role, validate_pagination}
use property_community_agent.Inspection.Tasks.{task_read_roles}
use property_community_agent.Inspection.Tasks.Handlers.{is_task_assignee, get_authorized_task}

-- `search_tasks`.
unfoldable pub search_tasks :
    InspectionTaskSearch
    → RequestContext
    → Action InspectionDb InspectionError (List InspectionTask)
search_tasks q c = do
  require_role c task_read_roles
  validate_pagination q.limit
  gets (list_tasks c.community_id q c)

pub record TaskSummary : Type 0 where
  pub total : ℕ
  pub done : ℕ
  pub incomplete : ℕ
  pub status_counts : TaskStatus → ℕ

-- The sums over the dictionary of counts.
abbrev pub summary_of : (TaskStatus → ℕ) → TaskSummary
summary_of count = record {
  total = count planned + count assigned + count in_progress + count submitted + count completed;
  done = count completed;
  incomplete = count planned + count assigned + count in_progress + count submitted;
  status_counts = count;
}

-- `summarize_tasks`.
unfoldable pub summarize_tasks :
    InspectionTaskSearch → RequestContext → Action InspectionDb InspectionError TaskSummary
summarize_tasks q c = do
  require_role c task_read_roles
  validate_pagination q.limit
  gets (λ s. summary_of (aggregate_task_statuses c.community_id q c s))

-- `get_task` of the service is `get_authorized_task`; this is the timeline.
unfoldable pub read_task_timeline :
    ℕ → RequestContext → Action InspectionDb InspectionError (List TimelineEntry)
read_task_timeline i c = do t ← get_authorized_task i c; gets (task_timeline i c.community_id)

-- `available_task_actions`.
unfoldable pub available_task_actions : InspectionTask → RequestContext → List TaskAction
available_task_actions t c =
    if status_eq t.status planned && has_any_role c (manager ∷ [])
    then assign ∷ []
    else if status_eq t.status assigned && is_task_assignee t c
    then start ∷ []
    else if status_eq t.status in_progress && is_task_assignee t c
    then submit_records ∷ add_record ∷ []
    else if status_eq t.status submitted && is_task_assignee t c
    then add_record ∷ []
    else if status_eq t.status submitted && has_any_role c (manager ∷ [])
    then complete ∷ []
    else []
