-- ===== src/Inspection/Task.antt =====
-- The patrol tasks of src/property_agent/inspection/domain/entities.py. A caller passes the moment of
-- every change.
pub mod Machine
use property_community_agent.Base.{
  ℕ, ◌+◌, String, Bool, true, false, ◌&&◌, ◌||◌, Option, none, some, List, [], ◌∷◌, ◌++◌, map, ◌==◌,
  if◌then◌else◌, is_some, any, Text, Result, ok, err,
}
use property_community_agent.Inspection.Enums.{
  TaskStatus, planned, assigned, in_progress, submitted, completed, TaskAction, create, assign,
  start, submit_records, complete, add_record, status_eq, action_eq,
}
use property_community_agent.Inspection.Errors.{
  InspectionError, invalid_task_transition, validation_error,
}

pub record AiSuggestion : Type 0 where
  pub id : ℕ
  pub point : Text
  pub finding : Text
  pub severity : String
  pub model : String
  pub generated_at : ℕ
  pub pending_confirm : Bool
  pub confirmed_by : Option ℕ
  pub confirmed_at : Option ℕ

pub record InspectionTask : Type 0 where
  pub id : ℕ
  pub community_id : ℕ
  pub business_no : Text
  pub title : Text
  pub description : Text
  pub route_points : List Text
  pub created_by : ℕ
  pub create_idempotency_key : Text
  pub status : TaskStatus
  pub assignee_id : Option ℕ
  pub planned_at : Option ℕ
  pub due_at : Option ℕ
  pub version : ℕ
  pub created_at : ℕ
  pub updated_at : ℕ
  pub closed_at : Option ℕ
  pub ai_suggestions : List AiSuggestion
  pub ai_pending_confirm : Bool

-- `TASK_TRANSITIONS`, in its order.
abbrev pub transition_table : List (TaskStatus × TaskAction × TaskStatus)
transition_table =
    (planned, assign, assigned)
    ∷ (assigned, start, in_progress)
    ∷ (in_progress, submit_records, submitted)
    ∷ (submitted, complete, completed)
    ∷ []

abbrev pub find_target :
    TaskStatus → TaskAction → List (TaskStatus × TaskAction × TaskStatus) → Option TaskStatus
find_target s a [] = none
find_target s a ((from, action, to) ∷ rest) =
    if status_eq from s && action_eq action a then some to else find_target s a rest

-- `TASK_TRANSITIONS.get((status, action))`.
abbrev pub target_of : TaskStatus → TaskAction → Option TaskStatus
target_of s a = find_target s a transition_table

abbrev pub actions_from : TaskStatus → List (TaskStatus × TaskAction × TaskStatus) → List TaskAction
actions_from s [] = []
actions_from s ((from, action, _) ∷ rest) =
    let more = actions_from s rest in if status_eq from s then action ∷ more else more

abbrev pub is_under_way : TaskStatus → Bool
is_under_way s = status_eq s in_progress || status_eq s submitted

-- `state_actions`.
abbrev pub state_actions : InspectionTask → List TaskAction
state_actions t =
    actions_from t.status transition_table
    ++ (if is_under_way t.status then add_record ∷ [] else [])

-- The writes of `transition` once the target is found.
abbrev pub apply_transition : TaskStatus → ℕ → InspectionTask → InspectionTask
apply_transition target now t = record t {
  status = target;
  version = t.version + 1;
  updated_at = now;
  closed_at = if status_eq target completed then some now else t.closed_at;
}

abbrev pub transition_to :
    Option TaskStatus → TaskAction → ℕ → InspectionTask → Result InspectionError InspectionTask
transition_to none action now t = err (invalid_task_transition t.status action (state_actions t))
transition_to (some target) action now t =
    if action_eq action assign && (if is_some t.assignee_id then false else true)
    then err (validation_error "An assignee is required before assignment.")
    else ok (apply_transition target now t)

-- `transition`.
unfoldable pub transition : TaskAction → ℕ → InspectionTask → Result InspectionError InspectionTask
transition action now t = transition_to (target_of t.status action) action now t

-- `touch`.
abbrev pub touch : ℕ → InspectionTask → InspectionTask
touch now t = record t { version = t.version + 1; updated_at = now }

-- `add_ai_suggestion`.
unfoldable pub append_ai_suggestion : AiSuggestion → ℕ → InspectionTask → InspectionTask
append_ai_suggestion x now t = record t {
  ai_suggestions = t.ai_suggestions ++ x ∷ [];
  ai_pending_confirm = true;
  version = t.version + 1;
  updated_at = now;
}

abbrev pub confirm_suggestion : ℕ → ℕ → AiSuggestion → AiSuggestion
confirm_suggestion by now x = record x {
  pending_confirm = false;
  confirmed_by = some by;
  confirmed_at = some now;
}

-- `confirm_ai_suggestions`.
unfoldable pub confirm_suggestions : ℕ → ℕ → InspectionTask → InspectionTask
confirm_suggestions by now t = record t {
  ai_suggestions = map (confirm_suggestion by now) t.ai_suggestions;
  ai_pending_confirm = false;
  version = t.version + 1;
  updated_at = now;
}
