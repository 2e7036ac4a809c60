-- ===== src/Repair/Service/Execute.antt =====
-- `execute_action` of src/property_agent/repair/application/service.py.
pub mod Handled
pub mod Outcome
pub mod Steps
pub mod Effects
pub mod Conflicts
pub mod Replays
use property_community_agent.Base.{
  ℕ, Bool, true, false, not, ◌&&◌, ◌||◌, Option, none, some, List, [], ◌∷◌, ◌++◌, ◌==◌,
  if◌then◌else◌, str_append, is_id, mem_id, Text, Result, ok, err, Action, ◌>>=◌, ◌>>◌, pure,
  found_or, raise, require, modify,
}
use property_community_agent.Platform.Tables.{SummaryValue, null, words, label, AuditLog}
use property_community_agent.Repair.Enums.{
  resident, repair_worker, manager, WorkOrderStatus, reworking, ActionCode, create, assign, accept,
  reject, record_progress, submit_completion, verify_pass, request_rework, submit_rework_completion,
  create_review, ProcessRecordType, appointment, arrival, progress, blocked, completion, status_eq,
  action_eq, action_value,
}
use property_community_agent.Repair.Errors.{
  RepairError, validation_error, invalid_transition, version_conflict,
}
use property_community_agent.Repair.WorkOrder.{WorkOrder, state_actions, is_in, transition, touch}
use property_community_agent.Repair.Commands.{RequestContext, has_any_role, ExecuteActionCommand}
use property_community_agent.Repair.Repository.{RepairDb, save}
use property_community_agent.Repair.Ports.{ensure_repair_worker, ensure_usable}
use property_community_agent.Repair.Service.{
  Environment, action_payload, assign_roles, denied, require_role, require_idempotency_key,
  required_text, lift_result, idempotent_replay, record_response, add_status_log, audit_row,
  add_audit, enqueue_action_message, get_authorized,
}
use property_community_agent.Repair.Service.Handlers.{apply_action}

-- `_effective_action`.
unfoldable pub effective_action : ActionCode → WorkOrderStatus → ActionCode
effective_action a from =
    if action_eq a submit_completion && status_eq from reworking
    then submit_rework_completion
    else a

abbrev option_words : Option Text → SummaryValue
option_words none = null
option_words (some t) = words t

abbrev option_label : Option ProcessRecordType → SummaryValue
option_label none = null
option_label (some appointment) = label "APPOINTMENT"
option_label (some arrival) = label "ARRIVAL"
option_label (some progress) = label "PROGRESS"
option_label (some blocked) = label "BLOCKED"
option_label (some completion) = label "COMPLETION"

abbrev pub action_audit : WorkOrder → ExecuteActionCommand → RequestContext → Option Text → AuditLog
action_audit w k c reason =
    audit_row c (action_value k.action) "WORK_ORDER" w.id
      (("reason", option_words reason) ∷ ("record_type", option_label k.record_type) ∷ [])

-- A progress record leaves no status log.
unfoldable pub log_action :
    ExecuteActionCommand
    → RequestContext
    → WorkOrder
    → Option Text
    → WorkOrder
    → ℕ
    → Action RepairDb RepairError (Unit {0})
log_action k c w reason w' now =
    if action_eq k.action record_progress
    then pure tt
    else add_status_log w' c (effective_action k.action w.status) (some w.status) reason now

-- What follows the handler: the response, the status log, the write, the audit row, the message.
unfoldable pub finish_action :
    Environment
    → ℕ
    → ExecuteActionCommand
    → RequestContext
    → Text
    → WorkOrder
    → Option Text
    → WorkOrder
    → Action RepairDb RepairError WorkOrder
finish_action env i k c key w reason w' = do
  modify (
      record_response c (str_append "WORK_ORDER_" (action_value k.action)) key
        (env.canonical_hash (action_payload i k)) w')
  log_action k c w reason w' env.now
  save w'
  modify (add_audit (action_audit w' k c reason))
  modify (enqueue_action_message env w' k.action c)
  pure w'

-- The part of `execute_action` that runs when no response is stored.
unfoldable pub run_action :
    Environment
    → ℕ
    → ExecuteActionCommand
    → RequestContext
    → Text
    → Action RepairDb RepairError WorkOrder
run_action env i k c key = do
  w ← get_authorized i c
  require (w.version == k.expected_version) (version_conflict w.version)
  (reason, w') ← apply_action w k c env.now
  finish_action env i k c key w reason w'

-- `execute_action`.
unfoldable pub execute_action :
    Environment
    → ℕ
    → ExecuteActionCommand
    → RequestContext
    → Text
    → Action RepairDb RepairError WorkOrder
execute_action env i k c key = do
  require_idempotency_key key
  found_or
      (idempotent_replay c (str_append "WORK_ORDER_" (action_value k.action)) key
        (env.canonical_hash (action_payload i k)))
      (run_action env i k c key)
