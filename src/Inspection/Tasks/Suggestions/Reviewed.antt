-- ===== src/Inspection/Tasks/Suggestions/Reviewed.antt =====
-- What `add_ai_suggestion` and `confirm_ai_suggestions` of inspection/application/service.py do.
use property_community_agent.Base.{
  ℕ, ◌≡◌, ◌⊎◌, inl, inr, true, Bool-cases, some, List, [], ◌∷◌, find, update_where, count_where,
  String, Text, ok, arith, Result-cases,
}
use property_community_agent.Platform.Tables.{SummaryValue}
use property_community_agent.Platform.Idempotency.{add_idempotency}
use property_community_agent.Inspection.Enums.{manager}
use property_community_agent.Inspection.Task.{
  InspectionTask, append_ai_suggestion, confirm_suggestions,
}
use property_community_agent.Inspection.Commands.{
  RequestContext, has_any_role, Command, AddAiSuggestion,
}
use property_community_agent.Inspection.Snapshot.{task_of_response, task_response, task_snapshot}
use property_community_agent.Inspection.Repository.{
  InspectionDb, task_in_community, is_previous_task, write_task, save_task,
}
use property_community_agent.Inspection.Repository.Saving.{save_task-ok}
use property_community_agent.Inspection.Ports.{consume_agent_write}
use property_community_agent.Inspection.Ports.Confirmed.{consume_agent_write-ok}
use property_community_agent.Inspection.Service.{
  Environment, suggestion_payload, task_suggestion_payload, confirm_payload, key_of,
  is_idempotency_key, operator_role,
}
use property_community_agent.Inspection.Service.Responses.{or_replay-ok}
use property_community_agent.Inspection.Tasks.{task_create_roles, log_task}
use property_community_agent.Inspection.Tasks.Handlers.{get_authorized_task}
use property_community_agent.Inspection.Tasks.Execute.Effects.{get_authorized_task-ok}
use property_community_agent.Inspection.Tasks.Suggestions.{
  new_suggestion, suggestion_summary, confirm_summary, finish_suggestion, run_suggestion,
  add_ai_suggestion, run_confirmation, confirm_ai_suggestions,
}

-- The trace of a change of the suggestions of a task.
pub record Changed (operation : String) (hash : ℕ) (c : RequestContext) (key : Text)
    (s : InspectionDb) (r : InspectionTask × InspectionDb) : Type 0 where
  pub tasks : r.1.tasks ≡ update_where (is_previous_task r.0) (write_task r.0) s.tasks
  pub only : count_where (is_previous_task r.0) s.tasks ≡ 1
  pub same_events : r.1.events ≡ s.events
  pub response :
      r.1.idempotency
      ≡ add_idempotency
          (key_of c operation key)
          hash
          r.0.id
          (task_response (task_snapshot r.0))
          s.idempotency

finish_suggestion-Changed :
    (c : RequestContext) (operation action : String) (key : Text) (hash : ℕ)
    (summary : List (String × SummaryValue)) (now : ℕ) (t' : InspectionTask) (s : InspectionDb)
    {r : InspectionTask × InspectionDb}
    → finish_suggestion c operation action key hash summary now t' s ≡ ok r
    → (r.0 ≡ t') × Changed operation hash c key s r
unfolding finish_suggestion log_task
finish_suggestion-Changed c operation action key hash summary now t' s {r} h =
    elim (Result-cases (save_task t' s)) [
      | inr (x, d) ↦ ground arith
      | inl (p, d) ↦
          let (one, saved) = save_task-ok t' s {p = p} d in
          elim (Result-cases (operator_role c)) [
            | inr (x, f) ↦ ground arith
            | inl (role, f) ↦ (
              ground arith,
              record {
                tasks = ground arith;
                only = ground arith;
                same_events = ground arith;
                response = ground arith;
              },
            )
          ]
    ]

rebase :
    {operation : String} {hash : ℕ} {c : RequestContext} {key : Text} {s s1 : InspectionDb}
    {r : InspectionTask × InspectionDb}
    → (s1.tasks ≡ s.tasks) × (s1.events ≡ s.events) × (s1.idempotency ≡ s.idempotency)
    → Changed operation hash c key s1 r
    → Changed operation hash c key s r
rebase {r} (tasks, events, responses) x = record {
  tasks = ground (arith, x.tasks);
  only = ground (arith, x.only);
  same_events = ground (arith, x.same_events);
  response = ground (arith, x.response);
}

-- A suggestion of the model that was added: to the task that was asked for, waiting for a human.
pub run_suggestion-Changed :
    (env : Environment) (i : ℕ) (k : Command AddAiSuggestion) (c : RequestContext) (key : Text)
    (s : InspectionDb) {r : InspectionTask × InspectionDb}
    → run_suggestion env i k c key s ≡ ok r
    → (t : InspectionTask) × (find (task_in_community i c.community_id) s.tasks ≡ some t)
      × (r.0 ≡ append_ai_suggestion (new_suggestion env.new_id env.now k.business) env.now t)
      × Changed "INSPECTION_TASK_ADD_AI_SUGGESTION"
          (env.canonical_hash (suggestion_payload k.business))
          c
          key
          s
          r
unfolding run_suggestion
run_suggestion-Changed env i k c key s {r} h =
    let operation : String = "INSPECTION_TASK_ADD_AI_SUGGESTION" in
    let hash = env.canonical_hash (task_suggestion_payload i k.business) in
    elim (Result-cases (consume_agent_write env.fence c k.confirmation operation hash env.now s)) [
      | inr (x, d) ↦ ground arith
      | inl (p, d) ↦
          let (kept, _, _) =
            consume_agent_write-ok env.fence c k.confirmation operation hash env.now s {p = p} d in
          elim (Result-cases (get_authorized_task i c p.1)) [
            | inr (x, e) ↦ ground arith
            | inl ((t, s1), e) ↦
                let (same, found, _) = get_authorized_task-ok i c p.1 {r = (t, s1)} e in
                let t' =
                  append_ai_suggestion (new_suggestion env.new_id env.now k.business) env.now t in
                let (d2, changed) =
                  finish_suggestion-Changed c operation "AI_SUGGESTION" key
                    (env.canonical_hash (suggestion_payload k.business))
                    (suggestion_summary k.business) env.now t' s1 {r = r} (ground arith) in
                let tables : (s1.tasks ≡ s.tasks)
                    × (s1.events ≡ s.events)
                    × (s1.idempotency ≡ s.idempotency) =
                  (ground arith, ground arith, ground arith) in
                (t, ground arith, d2, rebase tables changed)
          ]
    ]

-- A confirmation of all suggestions of a task that was made.
pub run_confirmation-Changed :
    (env : Environment) (i : ℕ) (c : RequestContext) (key : Text) (s : InspectionDb)
    {r : InspectionTask × InspectionDb}
    → run_confirmation env i c key s ≡ ok r
    → (t : InspectionTask) × (find (task_in_community i c.community_id) s.tasks ≡ some t)
      × (t.ai_pending_confirm ≡ true)
      × (r.0 ≡ confirm_suggestions c.actor_id env.now t)
      × Changed "INSPECTION_TASK_CONFIRM_AI" (env.canonical_hash (confirm_payload i)) c key s r
unfolding run_confirmation
run_confirmation-Changed env i c key s {r} h = elim (Result-cases (get_authorized_task i c s)) [
  | inr (x, e) ↦ ground arith
  | inl ((t, s1), e) ↦
      let (same, found, _) = get_authorized_task-ok i c s {r = (t, s1)} e in
      elim (Bool-cases t.ai_pending_confirm) [
        | inr b ↦ ground arith
        | inl b ↦
            let (d, changed) =
              finish_suggestion-Changed c "INSPECTION_TASK_CONFIRM_AI" "AI_CONFIRM" key
                (env.canonical_hash (confirm_payload i)) (confirm_summary t) env.now
                (confirm_suggestions c.actor_id env.now t) s1 {r = r} (ground arith) in
            let tables : (s1.tasks ≡ s.tasks)
                × (s1.events ≡ s.events)
                × (s1.idempotency ≡ s.idempotency) =
              (ground arith, ground arith, ground arith) in
            (t, found, b, d, rebase tables changed)
      ]
]

-- A call that succeeds returned a kept response and changed nothing, or added the suggestion.
pub add_ai_suggestion-ok :
    (env : Environment) (i : ℕ) (k : Command AddAiSuggestion) (c : RequestContext) (key : Text)
    (s : InspectionDb) {r : InspectionTask × InspectionDb}
    → add_ai_suggestion env i k c key s ≡ ok r
    → (r.1 ≡ s) ⊎ (run_suggestion env i k c key s ≡ ok r)
unfolding add_ai_suggestion
add_ai_suggestion-ok env i k c key s {r} h = elim (Bool-cases (is_idempotency_key key)) [
  | inr b ↦ ground arith
  | inl b ↦ elim (Bool-cases (has_any_role c task_create_roles)) [
    | inr d ↦ ground arith
    | inl d ↦
        or_replay-ok task_of_response c "INSPECTION_TASK_ADD_AI_SUGGESTION" key
          (env.canonical_hash (suggestion_payload k.business)) (run_suggestion env i k c key) s
          (ground arith)
  ]
]

pub confirm_ai_suggestions-ok :
    (env : Environment) (i : ℕ) (c : RequestContext) (key : Text) (s : InspectionDb)
    {r : InspectionTask × InspectionDb}
    → confirm_ai_suggestions env i c key s ≡ ok r
    → (r.1 ≡ s) ⊎ (run_confirmation env i c key s ≡ ok r)
unfolding confirm_ai_suggestions
confirm_ai_suggestions-ok env i c key s {r} h = elim (Bool-cases (is_idempotency_key key)) [
  | inr b ↦ ground arith
  | inl b ↦ elim (Bool-cases (has_any_role c (manager ∷ []))) [
    | inr d ↦ ground arith
    | inl d ↦
        or_replay-ok task_of_response c "INSPECTION_TASK_CONFIRM_AI" key
          (env.canonical_hash (confirm_payload i)) (run_confirmation env i c key) s (ground arith)
  ]
]
