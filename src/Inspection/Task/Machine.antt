-- ===== src/Inspection/Task/Machine.antt =====
-- The state machine of a task of inspection/domain/entities.py, and what every task keeps.
use property_community_agent.Base.{
  ℕ, suc, ◌+◌, ◌≤◌, ◌≡◌, refl, sym, subst, Bool, true, false, Option, none, some, is_some, List, [],
  ◌∷◌, ◌++◌, map, ok, arith,
}
use property_community_agent.Inspection.Enums.{
  TaskStatus, planned, assigned, in_progress, submitted, completed, TaskAction, assign, start,
  submit_records, complete, status_index,
}
use property_community_agent.Inspection.Task.{
  AiSuggestion, InspectionTask, target_of, apply_transition, transition_to, transition,
  append_ai_suggestion, confirm_suggestion, confirm_suggestions,
}

-- The diagram of `TASK_TRANSITIONS`.
pub data Edge : TaskStatus → TaskAction → TaskStatus → Type 0 where
  dispatched : Edge planned assign assigned
  begun : Edge assigned start in_progress
  handed_in : Edge in_progress submit_records submitted
  finished : Edge submitted complete completed

ruleset edges = (dispatched, begun, handed_in, finished)

target_of-Edge :
    (s : TaskStatus) (a : TaskAction) (t : TaskStatus) → target_of s a ≡ some t → Edge s a t
target_of-Edge s a t h = grind (arith, edges)

transition_to-ok :
    (o : Option TaskStatus) (a : TaskAction) (now : ℕ) (x : InspectionTask) {x' : InspectionTask}
    → transition_to o a now x ≡ ok x'
    → (t : TaskStatus) × (o ≡ some t)
      × (x' ≡ apply_transition t now x)
      × (a ≡ assign → is_some x.assignee_id ≡ true)
transition_to-ok none a now x h = cc
transition_to-ok (some t) a now x h = (t, refl, ground arith, ground arith)

-- What a change of a task leaves as it was: its identity, and its plan.
pub record SamePlan (t t' : InspectionTask) : Type 0 where
  pub same_id : t'.id ≡ t.id
  pub same_community : t'.community_id ≡ t.community_id
  pub same_points : t'.route_points ≡ t.route_points
  pub same_planned : t'.planned_at ≡ t.planned_at
  pub same_due : t'.due_at ≡ t.due_at
  pub next_version : t'.version ≡ t.version + 1

apply_transition-SamePlan :
    (t : TaskStatus) (now : ℕ) (x : InspectionTask) → SamePlan x (apply_transition t now x)
apply_transition-SamePlan t now x = ground arith

pub Edge-advance :
    {s t : TaskStatus} {a : TaskAction} → Edge s a t → status_index t ≡ status_index s + 1
Edge-advance dispatched = refl
Edge-advance begun = refl
Edge-advance handed_in = refl
Edge-advance finished = refl

-- A transition that is accepted follows an edge of the diagram, by one version, and leaves the plan.
pub transition-Edge :
    (a : TaskAction) (now : ℕ) (x : InspectionTask) {x' : InspectionTask}
    → transition a now x ≡ ok x'
    → Edge x.status a x'.status × SamePlan x x'
unfolding transition
transition-Edge a now x {x'} h =
    let (t, o, same, _) = transition_to-ok (target_of x.status a) a now x h in
    (
      subst (λ (y : InspectionTask). Edge x.status a y.status) (sym same)
          (target_of-Edge x.status a t o),
      subst (SamePlan x) (sym same) (apply_transition-SamePlan t now x),
    )

-- A run of accepted transitions, with their number. Between two of them an assignee may be set.
pub data Passes (x : InspectionTask) : ℕ → InspectionTask → Type 0 where
  no_step : Passes x 0 x
  take_step :
      {n : ℕ} {y z : InspectionTask}
      → Passes x n y
      → (a : TaskAction) (now : ℕ) → transition a now y ≡ ok z
      → Passes x (suc n) z
  name_assignee :
      {n : ℕ} {y : InspectionTask}
      → Passes x n y
      → (o : Option ℕ) → Passes x n (record y { assignee_id = o })

Passes-index :
    {x y : InspectionTask} {n : ℕ}
    → Passes x n y
    → status_index y.status ≡ status_index x.status + n
Passes-index no_step = omega arith
Passes-index (take_step {n} {y} {z} r a now h) =
    let (e, _) = transition-Edge a now y h in omega (arith, Edge-advance e, Passes-index r)
Passes-index (name_assignee r o) = Passes-index r

status_index_bound : (s : TaskStatus) → status_index s ≤ 4
status_index_bound planned = omega arith
status_index_bound assigned = omega arith
status_index_bound in_progress = omega arith
status_index_bound submitted = omega arith
status_index_bound completed = omega arith

-- A task only moves forward: every accepted transition takes it exactly one of the five stages
-- onward, so a run from any task makes at most four of them, and fewer the further the task is.
pub Passes-bound :
    {x y : InspectionTask} {n : ℕ}
    → Passes x n y
    → (status_index y.status ≡ status_index x.status + n) × (n + status_index x.status ≤ 4)
Passes-bound {x} {y} {n} r =
    (Passes-index r, omega (arith, Passes-index r, status_index_bound y.status))

-- Whether anything waits to be confirmed.
abbrev pub is_pending : AiSuggestion → Bool
is_pending s = s.pending_confirm

abbrev pub any_pending : List AiSuggestion → Bool
any_pending [] = false
any_pending (s ∷ ss) = elim s.pending_confirm [ true ↦ true | false ↦ any_pending ss ]

confirmed_none_pending :
    (by now : ℕ) (ss : List AiSuggestion) → any_pending (map (confirm_suggestion by now) ss) ≡ false
confirmed_none_pending by now [] = refl
confirmed_none_pending by now (s ∷ ss) = confirmed_none_pending by now ss

appended_pending :
    (s : AiSuggestion) (ss : List AiSuggestion)
    → s.pending_confirm ≡ true
    → any_pending (ss ++ s ∷ []) ≡ true
appended_pending s [] h = ground arith
appended_pending s (x ∷ ss) h = ground (arith, appended_pending s ss)

-- The flag of a task says whether a suggestion of the model waits to be confirmed.
abbrev pub FlagFits : InspectionTask → Type 0
FlagFits t = t.ai_pending_confirm ≡ any_pending t.ai_suggestions

pub append_ai_suggestion-kept :
    (s : AiSuggestion) (now : ℕ) (t : InspectionTask)
    → SamePlan t (append_ai_suggestion s now t) × ((append_ai_suggestion s now t).status ≡ t.status)
unfolding append_ai_suggestion
append_ai_suggestion-kept s now t = (ground arith, refl)

pub confirm_suggestions-kept :
    (by now : ℕ) (t : InspectionTask)
    → SamePlan t (confirm_suggestions by now t) × ((confirm_suggestions by now t).status ≡ t.status)
unfolding confirm_suggestions
confirm_suggestions-kept by now t = (ground arith, refl)

-- After the model's suggestion the flag is set and a suggestion waits; after a confirmation it is
-- cleared and none waits. Both go one version on and leave the plan.
pub suggestions-FlagFits :
    (s : AiSuggestion) (by now : ℕ) (t : InspectionTask)
    → s.pending_confirm ≡ true
    → FlagFits (append_ai_suggestion s now t)
      × FlagFits (confirm_suggestions by now t)
      × SamePlan t (append_ai_suggestion s now t)
      × SamePlan t (confirm_suggestions by now t)
unfolding append_ai_suggestion confirm_suggestions
suggestions-FlagFits s by now t h = (
  sym (appended_pending s t.ai_suggestions h),
  sym (confirmed_none_pending by now t.ai_suggestions),
  ground arith,
  ground arith,
)
