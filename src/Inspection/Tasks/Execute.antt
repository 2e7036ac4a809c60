-- ===== src/Inspection/Tasks/Execute.antt =====
-- `execute_task_action` of src/property_agent/inspection/application/service.py.
pub mod Handled
pub mod Steps
pub mod Effects
use property_community_agent.Base.{
  ℕ, String, Bool, true, false, ◌||◌, Option, none, some, List, [], ◌∷◌, ◌++◌, ◌==◌, if◌then◌else◌,
  str_append, Text, Result, ok, err, Action, ◌>>=◌, ◌>>◌, pure, raise, require, modify,
}
use property_community_agent.Platform.Tables.{AuditLog, SummaryValue, null, words, label}
use property_community_agent.Inspection.Enums.{
  TaskStatus, start, add_record, TaskRecordType, action_eq, action_value, record_type_value,
}
use property_community_agent.Inspection.Errors.{InspectionError, version_conflict}
use property_community_agent.Inspection.Task.{InspectionTask}
use property_community_agent.Inspection.Commands.{RequestContext, Command, ExecuteTaskAction}
use property_community_agent.Inspection.Snapshot.{task_of_response}
use property_community_agent.Inspection.Repository.{InspectionDb, save_task}
use property_community_agent.Inspection.Ports.{consume_agent_write}
use property_community_agent.Inspection.Service.{
  Environment, task_action_payload, require_idempotency_key, or_replay, record_task, audit_row,
  add_audit,
}
use property_community_agent.Inspection.Tasks.{log_task}
use property_community_agent.Inspection.Tasks.Handlers.{get_authorized_task, apply_task_action}

abbrev pub task_operation : ExecuteTaskAction → String
task_operation k = str_append "INSPECTION_TASK_" (action_value k.action)

-- The agent starts a task or adds a record only with an approved token.
unfoldable pub consume_task_write :
    Environment
    → ℕ
    → Command ExecuteTaskAction
    → RequestContext
    → Action InspectionDb InspectionError (Unit {0})
consume_task_write env i k c =
    if action_eq k.business.action start || action_eq k.business.action add_record
    then consume_agent_write env.fence c k.confirmation (task_operation k.business)
        (env.canonical_hash (task_action_payload i k.business)) env.now
    else pure tt

abbrev option_words : Option Text → SummaryValue
option_words none = null
option_words (some t) = words t

abbrev option_label : Option TaskRecordType → SummaryValue
option_label none = null
option_label (some r) = label (record_type_value r)

-- A record that changes no state leaves no status log.
unfoldable pub log_task_action :
    ExecuteTaskAction
    → RequestContext
    → TaskStatus
    → Option Text
    → InspectionTask
    → ℕ
    → Action InspectionDb InspectionError (Unit {0})
unfolding log_task
log_task_action k c from reason t' now =
    if action_eq k.action add_record
    then pure tt
    else log_task t' c (action_value k.action) (some from) reason now

abbrev pub task_audit : ExecuteTaskAction → RequestContext → Option Text → InspectionTask → AuditLog
task_audit k c reason t' =
    audit_row c (action_value k.action) "INSPECTION_TASK" t'.id
      (("reason", option_words reason) ∷ ("record_type", option_label k.record_type) ∷ [])

-- What follows the handler: the response, the status log, the write, the audit row.
unfoldable pub finish_task_action :
    Environment
    → ℕ
    → ExecuteTaskAction
    → RequestContext
    → Text
    → TaskStatus
    → Option Text
    → InspectionTask
    → Action InspectionDb InspectionError InspectionTask
unfolding log_task_action
finish_task_action env i k c key from reason t' = do
  modify (record_task c (task_operation k) key (env.canonical_hash (task_action_payload i k)) t')
  log_task_action k c from reason t' env.now
  save_task t'
  modify (add_audit (task_audit k c reason t'))
  pure t'

-- The part of `execute_task_action` that runs when no response is stored.
unfoldable pub run_task_action :
    Environment
    → ℕ
    → Command ExecuteTaskAction
    → RequestContext
    → Text
    → Action InspectionDb InspectionError InspectionTask
run_task_action env i k c key = do
  t ← get_authorized_task i c
  require (t.version == k.business.expected_version) (version_conflict t.version)
  consume_task_write env i k c
  (reason, t') ← apply_task_action env t k c
  finish_task_action env i k.business c key t.status reason t'

-- `execute_task_action`.
unfoldable pub execute_task_action :
    Environment
    → ℕ
    → Command ExecuteTaskAction
    → RequestContext
    → Text
    → Action InspectionDb InspectionError InspectionTask
execute_task_action env i k c key = do
  require_idempotency_key key
  or_replay task_of_response c (task_operation k.business) key
      (env.canonical_hash (task_action_payload i k.business)) (run_task_action env i k c key)
