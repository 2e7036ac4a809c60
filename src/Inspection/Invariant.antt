-- ===== src/Inspection/Invariant.antt =====
-- What the tables of the inspection package keep under every sequence of calls of its two services in
-- inspection/application/service.py.
use property_community_agent.Base.{
  ℕ, ◌≤◌, ◌≡◌, refl, subst, sym, inl, inr, true, some, List, [], ◌∷◌, Text, find, update_where,
  count_where, transact, transact-keeps, arith, All, All-append, All-find, All-unique, All-weaken,
  All-update_found,
}
use property_community_agent.Inspection.Enums.{status_index}
use property_community_agent.Inspection.Task.{InspectionTask}
use property_community_agent.Inspection.Task.Machine.{
  SamePlan, append_ai_suggestion-kept, confirm_suggestions-kept,
}
use property_community_agent.Inspection.Event.{SecurityEvent}
use property_community_agent.Inspection.Event.Machine.{IsValid}
use property_community_agent.Inspection.Commands.{
  RequestContext, Command, CreateTask, ExecuteTaskAction, AddAiSuggestion, CreateEvent,
  ExecuteEventAction,
}
use property_community_agent.Inspection.Repository.{
  InspectionDb, task_in_community, is_previous_task, write_task, event_in_community,
  is_previous_event, write_event,
}
use property_community_agent.Inspection.Service.{Environment}
use property_community_agent.Inspection.Tasks.{new_task, create_task}
use property_community_agent.Inspection.Tasks.Plans.{
  ConflictFree, Weaker, ConflictFree-update_where, ConflictFree-append,
}
use property_community_agent.Inspection.Tasks.Planning.{create_task-Planned}
use property_community_agent.Inspection.Tasks.Execute.{execute_task_action}
use property_community_agent.Inspection.Tasks.Execute.Effects.{
  run_task_action-Done, execute_task_action-ok,
}
use property_community_agent.Inspection.Tasks.Suggestions.{
  new_suggestion, add_ai_suggestion, confirm_ai_suggestions,
}
use property_community_agent.Inspection.Tasks.Suggestions.Reviewed.{
  run_suggestion-Changed, run_confirmation-Changed, add_ai_suggestion-ok, confirm_ai_suggestions-ok,
}
use property_community_agent.Inspection.Events.{new_event, create_event}
use property_community_agent.Inspection.Events.Reporting.{create_event-Reported}
use property_community_agent.Inspection.Events.Execute.{execute_event_action}
use property_community_agent.Inspection.Events.Execute.Effects.{run_event_action-Done}
use property_community_agent.Inspection.Events.Execute.Replays.{execute_event_action-ok}

-- Every event fits its state, with a confirmed grade if it is closed at a high risk, and no two open
-- plans with a time conflict.
pub record DbValid (s : InspectionDb) : Type 0 where
  pub events : All IsValid s.events
  pub plans : ConflictFree s.tasks

new_event-IsValid :
    (env : Environment) (k : CreateEvent) (c : RequestContext) (key : Text)
    → IsValid (new_event env k c key)
new_event-IsValid env k c key = record {
  closed_dated = λ e. cc;
  dated_closed = λ e. cc;
  handled = λ n. elim (n refl) [ ];
  graded = λ e. cc;
}

written-IsValid :
    (e' m : SecurityEvent) → m.risk_level ≡ e'.risk_level → IsValid e' → IsValid (write_event e' m)
written-IsValid e' m same v = record {
  closed_dated = v.closed_dated;
  dated_closed = v.dated_closed;
  handled = v.handled;
  graded = λ e. ground (arith, v.graded e);
}

-- The only row that a save of a task rewrites is the one that was read.
saved-ConflictFree :
    (i community : ℕ) (t t' : InspectionTask) (xs : List InspectionTask)
    → find (task_in_community i community) xs ≡ some t
    → SamePlan t t'
    → status_index t.status ≤ status_index t'.status
    → count_where (is_previous_task t') xs ≡ 1
    → ConflictFree xs
    → ConflictFree (update_where (is_previous_task t') (write_task t') xs)
saved-ConflictFree i community t t' xs found m forward one v =
    ConflictFree-update_where (is_previous_task t') (write_task t') xs
      (All-weaken (λ x. is_previous_task t' x ≡ true → x ≡ t)
        (λ x. is_previous_task t' x ≡ true → Weaker (write_task t' x) x) xs
        (λ x u b. record {
          same_community = refl;
          same_points = refl;
          same_planned = refl;
          same_due = refl;
          forward = ground (arith, u b);
        })
        (All-unique (task_in_community i community) (is_previous_task t') t xs found
          (ground (arith, m.same_id, m.same_community, m.next_version)) (omega arith)))
      v

module _ {s : InspectionDb} (v : DbValid s) (env : Environment) where
  create_task_call :
      (k : Command CreateTask) (c : RequestContext) (key : Text)
      → DbValid (transact (create_task env k c key) s).1
  create_task_call k c key = transact-keeps DbValid (create_task env k c key) s v (λ p e.
      elim (create_task-Planned env k c key s {r = p} e) [
        | inl (same, _, _, _, _) ↦ subst DbValid (sym same) v
        | inr d ↦ record {
          events = subst (All IsValid) (sym d.same_events) v.events;
          plans =
              subst ConflictFree (sym d.inserted)
                (ConflictFree-append (new_task env k.business c key) s.tasks d.no_clash v.plans);
        }
      ])

  task_action_call :
      (i : ℕ) (k : Command ExecuteTaskAction) (c : RequestContext) (key : Text)
      → DbValid (transact (execute_task_action env i k c key) s).1
  task_action_call i k c key =
      transact-keeps DbValid (execute_task_action env i k c key) s v (λ p e.
        elim (execute_task_action-ok env i k c key s {r = p} e) [
          | inl same ↦ subst DbValid (sym same) v
          | inr h ↦
              let (t, d) = run_task_action-Done env i k c key s {r = p} h in
              record {
                events = subst (All IsValid) (sym d.written.same_events) v.events;
                plans = subst ConflictFree (sym d.written.tasks) (
                    saved-ConflictFree i c.community_id t p.0 s.tasks d.found d.same_plan d.forward
                      d.written.only v.plans);
              }
        ])

  event_action_call :
      (i : ℕ) (k : Command ExecuteEventAction) (c : RequestContext) (key : Text)
      → DbValid (transact (execute_event_action env i k c key) s).1
  event_action_call i k c key =
      transact-keeps DbValid (execute_event_action env i k c key) s v (λ p e.
        elim (execute_event_action-ok env i k c key s {r = p} e) [
          | inl same ↦ subst DbValid (sym same) v
          | inr h ↦
              let (x, d) = run_event_action-Done env i k c key s {r = p} h in
              let x-IsValid : IsValid x =
                All-find IsValid (event_in_community i c.community_id) s.events v.events d.found in
              record {
                events = subst (All IsValid) (sym d.written.events) (
                    All-update_found IsValid (event_in_community i c.community_id)
                      (is_previous_event p.0) (write_event p.0) s.events d.found
                      (ground
                        (arith, d.moved.same_id, d.moved.same_community, d.moved.next_version))
                      (omega (arith, d.written.only))
                      (written-IsValid p.0 x (sym d.moved.same_risk) (d.moved.valid x-IsValid))
                      v.events);
                plans = subst ConflictFree (sym d.written.same_tasks) v.plans;
              }
        ])

  create_event_call :
      (k : Command CreateEvent) (c : RequestContext) (key : Text)
      → DbValid (transact (create_event env k c key) s).1
  create_event_call k c key = transact-keeps DbValid (create_event env k c key) s v (λ p e.
      elim (create_event-Reported env k c key s {r = p} e) [
        | inl (same, _, _, _, _) ↦ subst DbValid (sym same) v
        | inr d ↦ record {
          events = subst (All IsValid) (sym d.inserted) (
              All-append IsValid s.events (new_event env k.business c key ∷ []) v.events
                (new_event-IsValid env k.business c key, tt));
          plans = subst ConflictFree (sym d.same_tasks) v.plans;
        }
      ])

  suggestion_call :
      (i : ℕ) (k : Command AddAiSuggestion) (c : RequestContext) (key : Text)
      → DbValid (transact (add_ai_suggestion env i k c key) s).1
  suggestion_call i k c key = transact-keeps DbValid (add_ai_suggestion env i k c key) s v (λ p e.
      elim (add_ai_suggestion-ok env i k c key s {r = p} e) [
        | inl same ↦ subst DbValid (sym same) v
        | inr h ↦
            let (t, found, d, changed) = run_suggestion-Changed env i k c key s {r = p} h in
            let (m, status) =
              append_ai_suggestion-kept (new_suggestion env.new_id env.now k.business) env.now t in
            record {
              events = subst (All IsValid) (sym changed.same_events) v.events;
              plans = subst ConflictFree (sym changed.tasks) (
                  saved-ConflictFree i c.community_id t p.0 s.tasks found
                    (subst (SamePlan t) (sym d) m) (ground arith) changed.only v.plans);
            }
      ])

  confirmation_call :
      (i : ℕ) (c : RequestContext) (key : Text)
      → DbValid (transact (confirm_ai_suggestions env i c key) s).1
  confirmation_call i c key =
      transact-keeps DbValid (confirm_ai_suggestions env i c key) s v (λ p e.
        elim (confirm_ai_suggestions-ok env i c key s {r = p} e) [
          | inl same ↦ subst DbValid (sym same) v
          | inr h ↦
              let (t, found, _, d, changed) = run_confirmation-Changed env i c key s {r = p} h in
              let (m, status) = confirm_suggestions-kept c.actor_id env.now t in
              record {
                events = subst (All IsValid) (sym changed.same_events) v.events;
                plans = subst ConflictFree (sym changed.tasks) (
                    saved-ConflictFree i c.community_id t p.0 s.tasks found
                      (subst (SamePlan t) (sym d) m) (ground arith) changed.only v.plans);
              }
        ])

-- The tables that calls of the two services lead to from the given ones. A call that fails is rolled
-- back.
pub data Reaches (s : InspectionDb) : InspectionDb → Type 0 where
  at_start : Reaches s s
  by_create_task :
      {t : InspectionDb}
      → Reaches s t
      → (env : Environment) (k : Command CreateTask) (c : RequestContext) (key : Text)
      → Reaches s (transact (create_task env k c key) t).1
  by_task_action :
      {t : InspectionDb}
      → Reaches s t
      → (env : Environment) (i : ℕ) (k : Command ExecuteTaskAction) (c : RequestContext)
        (key : Text)
      → Reaches s (transact (execute_task_action env i k c key) t).1
  by_suggestion :
      {t : InspectionDb}
      → Reaches s t
      → (env : Environment) (i : ℕ) (k : Command AddAiSuggestion) (c : RequestContext) (key : Text)
      → Reaches s (transact (add_ai_suggestion env i k c key) t).1
  by_confirmation :
      {t : InspectionDb}
      → Reaches s t
      → (env : Environment) (i : ℕ) (c : RequestContext) (key : Text)
      → Reaches s (transact (confirm_ai_suggestions env i c key) t).1
  by_create_event :
      {t : InspectionDb}
      → Reaches s t
      → (env : Environment) (k : Command CreateEvent) (c : RequestContext) (key : Text)
      → Reaches s (transact (create_event env k c key) t).1
  by_event_action :
      {t : InspectionDb}
      → Reaches s t
      → (env : Environment) (i : ℕ) (k : Command ExecuteEventAction) (c : RequestContext)
        (key : Text)
      → Reaches s (transact (execute_event_action env i k c key) t).1

-- Whatever calls of the six writing operations follow, from valid tables, failed and repeated ones
-- included: every closed event of high risk has a confirmed grade, closing times and handlers fit the
-- states of the events, and no two open plans of a community that have a time share a point at one
-- time.
pub Reaches-DbValid : {s t : InspectionDb} → Reaches s t → DbValid s → DbValid t
Reaches-DbValid at_start v = v
Reaches-DbValid (by_create_task p env k c key) v =
    create_task_call (Reaches-DbValid p v) env k c key
Reaches-DbValid (by_task_action p env i k c key) v =
    task_action_call (Reaches-DbValid p v) env i k c key
Reaches-DbValid (by_suggestion p env i k c key) v =
    suggestion_call (Reaches-DbValid p v) env i k c key
Reaches-DbValid (by_confirmation p env i c key) v =
    confirmation_call (Reaches-DbValid p v) env i c key
Reaches-DbValid (by_create_event p env k c key) v =
    create_event_call (Reaches-DbValid p v) env k c key
Reaches-DbValid (by_event_action p env i k c key) v =
    event_action_call (Reaches-DbValid p v) env i k c key
