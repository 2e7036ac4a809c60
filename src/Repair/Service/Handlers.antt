-- ===== src/Repair/Service/Handlers.antt =====
-- `_apply_action` of src/property_agent/repair/application/service.py and the handlers of the single
-- actions. A handler that changes the work order gives the changed one back, with the reason.
use property_community_agent.Base.{
  ℕ, Bool, ◌&&◌, ◌||◌, Option, none, some, List, [], ◌∷◌, ◌++◌, if◌then◌else◌, is_id, mem_id, Text,
  Result, ok, err, Action, ◌>>=◌, ◌>>◌, pure, raise, require, modify,
}
use property_community_agent.Repair.Enums.{
  resident, repair_worker, manager, ActionCode, create, assign, accept, reject, record_progress,
  submit_completion, verify_pass, request_rework, submit_rework_completion, create_review,
  ProcessRecordType, appointment, arrival, progress, blocked, completion, action_eq,
}
use property_community_agent.Repair.Errors.{RepairError, validation_error, invalid_transition}
use property_community_agent.Repair.WorkOrder.{WorkOrder, state_actions, is_in, transition, touch}
use property_community_agent.Repair.Commands.{RequestContext, ExecuteActionCommand}
use property_community_agent.Repair.Repository.{RepairDb}
use property_community_agent.Repair.Ports.{ensure_repair_worker, ensure_usable}
use property_community_agent.Repair.Service.{
  assign_roles, denied, require_role, required_text, lift_result,
}

-- `_require_assignee`.
unfoldable pub is_assignee : WorkOrder → RequestContext → Bool
is_assignee w c = c.roles repair_worker && is_id w.assignee_id c.actor_id

-- `_require_verifier`.
unfoldable pub is_verifier : WorkOrder → RequestContext → Bool
is_verifier w c = c.roles manager || c.roles resident && mem_id w.house_id c.house_ids

-- `_require_state_action`.
abbrev pub require_state_action : WorkOrder → ActionCode → Action RepairDb RepairError (Unit {0})
require_state_action w a =
    require (is_in a (state_actions w)) (invalid_transition w.status a (state_actions w))

-- `_assign`.
unfoldable pub assign_order :
    WorkOrder
    → ExecuteActionCommand
    → RequestContext
    → ℕ
    → Action RepairDb RepairError (Option Text × WorkOrder)
assign_order w k c now = do
  require_role c assign_roles
  elim k.assignee_id [
    | none ↦ raise (validation_error "assignee_id is required.")
    | some i ↦ do
      ensure_repair_worker i c.community_id
      w' ←
          lift_result
            (transition k.action now (record w { row = record w.row { assignee_id = some i } }))
      pure (none, w')
  ]

-- The types of record that a worker may add on the way.
unfoldable pub progress_type : Option ProcessRecordType → Result RepairError ProcessRecordType
progress_type (some appointment) = ok appointment
progress_type (some arrival) = ok arrival
progress_type (some progress) = ok progress
progress_type (some blocked) = ok blocked
progress_type _ = err (validation_error "record_type is invalid for a progress record.")

abbrev pub add_process_record :
    WorkOrder
    → ProcessRecordType
    → Text
    → Option ℕ
    → List ℕ
    → RequestContext
    → ℕ
    → RepairDb
    → RepairDb
add_process_record w type note moment files c now s = record s {
  process_records =
      s.process_records
      ++ record {
        community_id = c.community_id;
        work_order_id = w.id;
        record_type = type;
        note = note;
        operator_id = c.actor_id;
        appointment_at = moment;
        attachment_ids = files;
        created_at = now;
      }
        ∷ [];
}

-- `_record_progress`.
unfoldable pub add_progress :
    WorkOrder
    → ExecuteActionCommand
    → RequestContext
    → ℕ
    → Action RepairDb RepairError (Option Text × WorkOrder)
add_progress w k c now = do
  require_state_action w k.action
  type ← lift_result (progress_type k.record_type)
  note ← lift_result (required_text k.note "A progress note is required.")
  ensure_usable k.attachment_ids c.actor_id c.community_id
  modify (add_process_record w type note k.appointment_at k.attachment_ids c now)
  pure (some note, touch now w)

-- `_submit_completion`.
unfoldable pub complete :
    WorkOrder
    → ExecuteActionCommand
    → RequestContext
    → ℕ
    → Action RepairDb RepairError (Option Text × WorkOrder)
complete w k c now = do
  require_state_action w k.action
  note ← lift_result (required_text k.note "A completion note is required.")
  ensure_usable k.attachment_ids c.actor_id c.community_id
  modify (add_process_record w completion note none k.attachment_ids c now)
  w' ← lift_result (transition k.action now w)
  pure (some note, w')

abbrev pub rework_reason : ExecuteActionCommand → Result RepairError (Option Text)
rework_reason k =
    if action_eq k.action request_rework
    then elim (required_text k.reason "A rework reason is required.") [
      | ok t ↦ ok (some t)
      | err e ↦ err e
    ]
    else ok none

-- `_verify`.
unfoldable pub verify :
    WorkOrder
    → ExecuteActionCommand
    → RequestContext
    → ℕ
    → Action RepairDb RepairError (Option Text × WorkOrder)
verify w k c now = do
  require (is_verifier w c) denied
  reason ← lift_result (rework_reason k)
  w' ← lift_result (transition k.action now w)
  pure (reason, w')

-- The branch of REJECT.
unfoldable pub reject_order :
    WorkOrder
    → ExecuteActionCommand
    → RequestContext
    → ℕ
    → Action RepairDb RepairError (Option Text × WorkOrder)
reject_order w k c now = do
  reason ← lift_result (required_text k.reason "A rejection reason is required.")
  w' ← lift_result (transition k.action now w)
  pure (some reason, w')

-- The branch of ACCEPT.
unfoldable pub accept_order :
    WorkOrder
    → ExecuteActionCommand
    → RequestContext
    → ℕ
    → Action RepairDb RepairError (Option Text × WorkOrder)
accept_order w k c now = do w' ← lift_result (transition k.action now w); pure (none, w')

abbrev pub handler :
    ActionCode
    → WorkOrder
    → ExecuteActionCommand
    → RequestContext
    → ℕ
    → Action RepairDb RepairError (Option Text × WorkOrder)
handler assign w k c now = assign_order w k c now
handler accept w k c now = require (is_assignee w c) denied >> accept_order w k c now
handler reject w k c now = require (is_assignee w c) denied >> reject_order w k c now
handler record_progress w k c now = require (is_assignee w c) denied >> add_progress w k c now
handler submit_completion w k c now = require (is_assignee w c) denied >> complete w k c now
handler submit_rework_completion w k c now = require (is_assignee w c) denied >> complete w k c now
handler verify_pass w k c now = verify w k c now
handler request_rework w k c now = verify w k c now
handler create w k c now = raise (validation_error "Unsupported action: CREATE.")
handler create_review w k c now = raise (validation_error "Unsupported action: CREATE_REVIEW.")

-- `_apply_action`.
unfoldable pub apply_action :
    WorkOrder
    → ExecuteActionCommand
    → RequestContext
    → ℕ
    → Action RepairDb RepairError (Option Text × WorkOrder)
apply_action w k c now = handler k.action w k c now
