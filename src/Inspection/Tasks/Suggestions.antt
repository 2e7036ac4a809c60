-- ===== src/Inspection/Tasks/Suggestions.antt =====
-- The suggestions of the model on a task: `add_ai_suggestion` and `confirm_ai_suggestions` of
-- src/property_agent/inspection/application/service.py.
pub mod Reviewed
use property_community_agent.Base.{
  ℕ, String, Bool, true, false, Option, none, some, List, [], ◌∷◌, ◌++◌, if◌then◌else◌, length,
  Text, strip, Result, ok, err, Action, ◌>>=◌, ◌>>◌, pure, raise, require, modify,
}
use property_community_agent.Platform.Tables.{SummaryValue, words, label, number}
use property_community_agent.Inspection.Enums.{manager}
use property_community_agent.Inspection.Errors.{InspectionError, validation_error}
use property_community_agent.Inspection.Task.{
  AiSuggestion, InspectionTask, append_ai_suggestion, confirm_suggestions,
}
use property_community_agent.Inspection.Commands.{RequestContext, Command, AddAiSuggestion}
use property_community_agent.Inspection.Snapshot.{task_of_response}
use property_community_agent.Inspection.Repository.{InspectionDb, save_task}
use property_community_agent.Inspection.Ports.{consume_agent_write}
use property_community_agent.Inspection.Service.{
  Environment, Payload, suggestion_payload, task_suggestion_payload, confirm_payload, require_role,
  require_idempotency_key, or_replay, record_task, audit_row, add_audit,
}
use property_community_agent.Inspection.Tasks.{task_create_roles, log_task}
use property_community_agent.Inspection.Tasks.Handlers.{get_authorized_task}

abbrev pub new_suggestion : ℕ → ℕ → AddAiSuggestion → AiSuggestion
new_suggestion new_id now k = record {
  id = new_id;
  point = strip k.point;
  finding = strip k.finding;
  severity = k.severity;
  model = k.model;
  generated_at = now;
  pending_confirm = true;
  confirmed_by = none;
  confirmed_at = none;
}

abbrev pub suggestion_summary : AddAiSuggestion → List (String × SummaryValue)
suggestion_summary k = ("point", words k.point) ∷ ("severity", label k.severity) ∷ []

abbrev pub confirm_summary : InspectionTask → List (String × SummaryValue)
confirm_summary t = ("confirmed", number (length t.ai_suggestions)) ∷ []

-- What both operations do with the changed task.
unfoldable pub finish_suggestion :
    RequestContext
    → String
    → String
    → Text
    → ℕ
    → List (String × SummaryValue)
    → ℕ
    → InspectionTask
    → Action InspectionDb InspectionError InspectionTask
unfolding log_task
finish_suggestion c operation action key hash summary now t' = do
  save_task t'
  log_task t' c action none none now
  modify (record_task c operation key hash t')
  modify (add_audit (audit_row c action "INSPECTION_TASK" t'.id summary))
  pure t'

unfoldable pub run_suggestion :
    Environment
    → ℕ
    → Command AddAiSuggestion
    → RequestContext
    → Text
    → Action InspectionDb InspectionError InspectionTask
run_suggestion env i k c key = do
  consume_agent_write env.fence c k.confirmation "INSPECTION_TASK_ADD_AI_SUGGESTION"
      (env.canonical_hash (task_suggestion_payload i k.business)) env.now
  t ← get_authorized_task i c
  finish_suggestion c "INSPECTION_TASK_ADD_AI_SUGGESTION" "AI_SUGGESTION" key
      (env.canonical_hash (suggestion_payload k.business)) (suggestion_summary k.business) env.now
      (append_ai_suggestion (new_suggestion env.new_id env.now k.business) env.now t)

-- `add_ai_suggestion` of the service. The hash of the request does not cover the task.
unfoldable pub add_ai_suggestion :
    Environment
    → ℕ
    → Command AddAiSuggestion
    → RequestContext
    → Text
    → Action InspectionDb InspectionError InspectionTask
add_ai_suggestion env i k c key = do
  require_idempotency_key key
  require_role c task_create_roles
  or_replay task_of_response c "INSPECTION_TASK_ADD_AI_SUGGESTION" key
      (env.canonical_hash (suggestion_payload k.business)) (run_suggestion env i k c key)

unfoldable pub run_confirmation :
    Environment → ℕ → RequestContext → Text → Action InspectionDb InspectionError InspectionTask
run_confirmation env i c key = do
  t ← get_authorized_task i c
  require t.ai_pending_confirm (validation_error "No pending AI suggestion to confirm.")
  finish_suggestion c "INSPECTION_TASK_CONFIRM_AI" "AI_CONFIRM" key
      (env.canonical_hash (confirm_payload i)) (confirm_summary t) env.now
      (confirm_suggestions c.actor_id env.now t)

-- `confirm_ai_suggestions` of the service.
unfoldable pub confirm_ai_suggestions :
    Environment → ℕ → RequestContext → Text → Action InspectionDb InspectionError InspectionTask
confirm_ai_suggestions env i c key = do
  require_idempotency_key key
  require_role c (manager ∷ [])
  or_replay task_of_response c "INSPECTION_TASK_CONFIRM_AI" key
      (env.canonical_hash (confirm_payload i)) (run_confirmation env i c key)
