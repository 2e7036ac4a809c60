-- ===== src/Inspection/Tasks/Handlers.antt =====
-- The handlers of the actions of a task in inspection/application/service.py.
use property_community_agent.Base.{
  ℕ, Bool, true, false, not, ◌&&◌, Option, none, some, [], ◌∷◌, is_id, Text, has_content, Action,
  ◌>>=◌, ◌>>◌, pure, raise, require, modify, gets, or_raise,
}
use property_community_agent.Inspection.Enums.{
  security_staff, manager, TaskAction, create, assign, start, submit_records, complete, add_record,
  TaskRecordType, supplement,
}
use property_community_agent.Inspection.Errors.{
  InspectionError, validation_error, not_found, confirmation_required, supplement_reason_required,
  invalid_task_transition,
}
use property_community_agent.Inspection.Task.{
  InspectionTask, transition, touch, is_under_way, state_actions,
}
use property_community_agent.Inspection.Commands.{
  RequestContext, has_any_role, Command, ExecuteTaskAction,
}
use property_community_agent.Inspection.Repository.{
  InspectionDb, TaskRecord, get_task, add_task_record,
}
use property_community_agent.Inspection.Ports.{
  consume, token_text, ensure_security_staff, ensure_usable,
}
use property_community_agent.Inspection.Service.{
  Environment, submission_payload, denied, require_role, lift_result, required_text,
}
use property_community_agent.Inspection.Tasks.{task_read_roles}

-- `_require_task_assignee`.
abbrev pub is_task_assignee : InspectionTask → RequestContext → Bool
is_task_assignee t c = has_any_role c (security_staff ∷ []) && is_id t.assignee_id c.actor_id

-- What the role of the caller hides of a task.
abbrev pub may_see_task : RequestContext → InspectionTask → Bool
may_see_task c t = not (
    has_any_role c (security_staff ∷ [])
    && (not (has_any_role c (manager ∷ [])) && not (is_id t.assignee_id c.actor_id)))

-- `_get_authorized_task`.
unfoldable pub get_authorized_task :
    ℕ → RequestContext → Action InspectionDb InspectionError InspectionTask
get_authorized_task i c = do
  require_role c task_read_roles
  t ← or_raise (← gets (get_task i c.community_id)) not_found
  require (may_see_task c t) not_found
  pure t

-- A handler gives the reason for the log and the task to save.
abbrev pub Outcome : Type 0
Outcome = Option Text × InspectionTask

-- `_assign_task`.
unfoldable pub assign_task :
    InspectionTask
    → ExecuteTaskAction
    → RequestContext
    → ℕ
    → Action InspectionDb InspectionError Outcome
assign_task t k c now = do
  require_role c (manager ∷ [])
  user ← or_raise k.assignee_id (validation_error "assignee_id is required.")
  ensure_security_staff user c.community_id
  t' ← lift_result (transition k.action now (record t { assignee_id = some user }))
  pure (none, t')

abbrev pub is_submission_type : Option TaskRecordType → Option TaskRecordType
is_submission_type none = none
is_submission_type (some supplement) = none
is_submission_type (some r) = some r

abbrev pub task_record :
    InspectionTask
    → ExecuteTaskAction
    → RequestContext
    → TaskRecordType
    → Text
    → Bool
    → Option ℕ
    → Option Text
    → ℕ
    → TaskRecord
task_record t k c record_type note is_supplement actual_time reason now = record {
  community_id = c.community_id;
  task_id = t.id;
  record_type = record_type;
  point = k.point;
  note = note;
  operator_id = c.actor_id;
  attachment_ids = k.attachment_ids;
  is_supplement = is_supplement;
  actual_time = actual_time;
  supplement_reason = reason;
  created_at = now;
}

-- `_submit_records` after its confirmation.
unfoldable pub write_submission :
    InspectionTask
    → ExecuteTaskAction
    → RequestContext
    → ℕ
    → Action InspectionDb InspectionError Outcome
write_submission t k c now = do
  kind ←
      or_raise (is_submission_type k.record_type)
        (validation_error "record_type is invalid for a submission.")
  note ← lift_result (required_text k.note "A submission note is required.")
  ensure_usable k.attachment_ids c.actor_id c.community_id
  modify (add_task_record (task_record t k c kind note false none none now))
  t' ← lift_result (transition k.action now t)
  pure (some note, t')

-- `_submit_records`.
unfoldable pub submit_task_records :
    Environment
    → InspectionTask
    → Command ExecuteTaskAction
    → RequestContext
    → Action InspectionDb InspectionError Outcome
submit_task_records env t k c = do
  require (is_task_assignee t c) denied
  require (has_content (token_text k.confirmation.confirmation_token)) confirmation_required
  consume env.fence k.confirmation.approval_ref (token_text k.confirmation.confirmation_token)
      c.actor_id "INSPECTION_TASK_SUBMIT_RECORDS"
      (env.canonical_hash
        (submission_payload k.business.note k.business.record_type k.business.point))
      env.now
  write_submission t k.business c env.now

-- `not command.supplement_reason`.
abbrev pub is_given : Option Text → Bool
is_given none = false
is_given (some []) = false
is_given (some (_ ∷ _)) = true

-- `_add_record`.
unfoldable pub append_record :
    InspectionTask
    → ExecuteTaskAction
    → RequestContext
    → ℕ
    → Action InspectionDb InspectionError Outcome
append_record t k c now = do
  require (is_task_assignee t c) denied
  require (is_under_way t.status) (invalid_task_transition t.status add_record (state_actions t))
  kind ← or_raise k.record_type (validation_error "record_type is invalid for a record.")
  note ← lift_result (required_text k.note "A record note is required.")
  require (not (k.is_supplement && not (is_given k.supplement_reason))) supplement_reason_required
  ensure_usable k.attachment_ids c.actor_id c.community_id
  modify (
      add_task_record
        (task_record t k c kind note k.is_supplement k.actual_time k.supplement_reason now))
  pure (some note, touch now t)

unfoldable pub start_task :
    InspectionTask
    → ExecuteTaskAction
    → RequestContext
    → ℕ
    → Action InspectionDb InspectionError Outcome
start_task t k c now = do
  require (is_task_assignee t c) denied
  t' ← lift_result (transition k.action now t)
  pure (none, t')

unfoldable pub complete_task :
    InspectionTask
    → ExecuteTaskAction
    → RequestContext
    → ℕ
    → Action InspectionDb InspectionError Outcome
complete_task t k c now = do
  require_role c (manager ∷ [])
  t' ← lift_result (transition k.action now t)
  pure (none, t')

abbrev pub task_handler :
    TaskAction
    → Environment
    → InspectionTask
    → Command ExecuteTaskAction
    → RequestContext
    → Action InspectionDb InspectionError Outcome
task_handler assign env t k c = assign_task t k.business c env.now
task_handler start env t k c = start_task t k.business c env.now
task_handler submit_records env t k c = submit_task_records env t k c
task_handler complete env t k c = complete_task t k.business c env.now
task_handler add_record env t k c = append_record t k.business c env.now
task_handler create env t k c = raise (validation_error "Unsupported action: CREATE.")

-- `_apply_task_action`.
unfoldable pub apply_task_action :
    Environment
    → InspectionTask
    → Command ExecuteTaskAction
    → RequestContext
    → Action InspectionDb InspectionError Outcome
apply_task_action env t k c = task_handler k.business.action env t k c
