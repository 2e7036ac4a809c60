-- ===== src/Inspection/Tests.antt =====
-- The operations of the inspection package on concrete tables.
use property_community_agent.Base.{
  count_where, ◌+◌, ◌≤◌, ◌⊎◌, ◌≡◌, refl, true, some, length, select, has_content, is_space, strip,
  lstrip, if◌then◌else◌, ◌==◌, ok, err, transact, All, chars, Text,
}
use property_community_agent.Platform.Idempotency.{get_idempotency}
use property_community_agent.Inspection.Enums
use property_community_agent.Inspection.Enums.{TaskStatus, assign, status_index}
use property_community_agent.Inspection.EventEnums.{high_risk, review_pass}
use property_community_agent.Inspection.Errors.{idempotency_conflict}
use property_community_agent.Inspection.Task
use property_community_agent.Inspection.Task.{InspectionTask}
use property_community_agent.Inspection.Task.Machine.{
  Passes, no_step, take_step, name_assignee, Passes-bound,
}
use property_community_agent.Inspection.Event
use property_community_agent.Inspection.Event.{SecurityEvent}
use property_community_agent.Inspection.Classification.{
  starts_with, contains, has_cue, classify_security_event, rank, requested_or,
  normalize_security_event,
}
use property_community_agent.Inspection.Classification.Floor.{
  danger_cues, danger_is_high_risk, risk_floor,
}
use property_community_agent.Inspection.Repository.{
  InspectionDb, get_task, save_task, get_event, save_event, has_status, is_listed_task,
  aggregate_task_statuses, list_events,
}
use property_community_agent.Inspection.Ports.{consume_agent_write, ensure_security_staff}
use property_community_agent.Inspection.Service.{
  is_idempotency_key, idempotent_replay, operator_role, event_action_payload,
}
use property_community_agent.Inspection.Tasks.{
  validate_create, validate_plan_conflict, insert_task, log_task, plan_task, create_task,
}
use property_community_agent.Inspection.Tasks.Handlers.{
  get_authorized_task, assign_task, apply_task_action,
}
use property_community_agent.Inspection.Tasks.Execute.{
  consume_task_write, log_task_action, finish_task_action, run_task_action, execute_task_action,
}
use property_community_agent.Inspection.Tasks.Execute.Effects.{Done, run_task_action-Done}
use property_community_agent.Inspection.Tasks.Suggestions.{add_ai_suggestion}
use property_community_agent.Inspection.Tasks.Queries.{TaskSummary, summary_of, summarize_tasks}
use property_community_agent.Inspection.Events.{log_event, create_event}
use property_community_agent.Inspection.Events.Execute.{
  get_authorized_event, pass_review, apply_event_action, consume_event_write, finish_event_action,
  run_event_action, execute_event_action, may_see_event,
}
use property_community_agent.Inspection.Events.Execute.Effects
use property_community_agent.Inspection.Events.Execute.Effects.{run_event_action-Done}
use property_community_agent.Inspection.Events.Execute.Replays.{execute_event_action_again}
use property_community_agent.Inspection.Events.Queries.{search_events}
use property_community_agent.Inspection.Invariant.{
  DbValid, Reaches, at_start, by_create_task, by_task_action, by_create_event, Reaches-DbValid,
}
use property_community_agent.Inspection.Visibility.{
  search_events-MaySee, is_completed, is_unfinished, summarize_tasks_exact,
}
use property_community_agent.Inspection.TestData.{
  env, the_manager, the_guard, empty, patrol, leak, task_step, event_step, crack, key1, first_task,
  with_task, first_event, graded_event, with_event, any_task, any_event, value_or,
}

planned_and_assigned :
    Reaches empty
      (transact
        (execute_task_action env 200 (task_step assign 1) the_manager key1)
        (transact
          (create_task env patrol the_manager key1)
          (transact (create_event env leak the_guard key1) empty).1).1).1
planned_and_assigned =
    by_task_action
      (by_create_task (by_create_event at_start env leak the_guard key1) env patrol the_manager
        key1)
      env 200 (task_step assign 1) the_manager key1

Reaches-DbValid_example :
    DbValid
      (transact
        (execute_task_action env 200 (task_step assign 1) the_manager key1)
        (transact
          (create_task env patrol the_manager key1)
          (transact (create_event env leak the_guard key1) empty).1).1).1
Reaches-DbValid_example = Reaches-DbValid planned_and_assigned (record { events = tt; plans = tt })

abbrev planned : InspectionTask × InspectionDb
planned = value_or (create_task env patrol the_manager key1 empty) (first_task, empty)

plans : create_task env patrol the_manager key1 empty ≡ ok planned
unfolding create_task is_idempotency_key has_content is_space idempotent_replay get_idempotency
    plan_task consume_agent_write validate_create validate_plan_conflict insert_task log_task
    operator_role
plans = refl

abbrev reported : SecurityEvent × InspectionDb
reported = value_or (create_event env leak the_guard key1 empty) (first_event, empty)

abbrev assigned : InspectionTask × InspectionDb
assigned =
    value_or (run_task_action env 200 (task_step assign 1) the_manager key1 with_task)
      (first_task, with_task)

assigns : run_task_action env 200 (task_step assign 1) the_manager key1 with_task ≡ ok assigned
unfolding run_task_action get_authorized_task get_task consume_task_write apply_task_action
    assign_task ensure_security_staff Task.transition finish_task_action log_task_action log_task
    operator_role save_task
assigns = refl

run_task_action-Done_example :
    (t : InspectionTask) × Done env 200 (task_step assign 1) the_manager key1 with_task t assigned
run_task_action-Done_example =
    run_task_action-Done env 200 (task_step assign 1) the_manager key1 with_task {r = assigned}
      assigns

abbrev closed : SecurityEvent × InspectionDb
closed =
    value_or (run_event_action env 200 (event_step review_pass 1) the_manager key1 with_event)
      (graded_event, with_event)

closes : run_event_action env 200 (event_step review_pass 1) the_manager key1 with_event ≡ ok closed
unfolding run_event_action get_authorized_event get_event consume_event_write apply_event_action
    pass_review Event.transition finish_event_action log_event operator_role save_event
closes = refl

run_event_action-Done_example :
    (e : SecurityEvent) × Effects.Done env 200
      (event_step review_pass 1)
      the_manager
      key1
      with_event
      e
      closed
run_event_action-Done_example =
    run_event_action-Done env 200 (event_step review_pass 1) the_manager key1 with_event
      {r = closed} closes

abbrev passed : SecurityEvent × InspectionDb
passed =
    value_or (execute_event_action env 200 (event_step review_pass 1) the_manager key1 with_event)
      (graded_event, with_event)

passes :
    execute_event_action env 200 (event_step review_pass 1) the_manager key1 with_event ≡ ok passed
unfolding execute_event_action is_idempotency_key has_content is_space idempotent_replay
    get_idempotency run_event_action get_authorized_event get_event consume_event_write
    apply_event_action pass_review Event.transition finish_event_action log_event operator_role
    save_event
passes = refl

-- The second request expects another version.
execute_event_action_again_example :
    execute_event_action env 200 (event_step review_pass 2) the_manager key1 passed.1 ≡ (
      if env.canonical_hash (event_action_payload 200 (event_step review_pass 1).business)
        == env.canonical_hash (event_action_payload 200 (event_step review_pass 2).business)
      then ok passed
      else err idempotency_conflict)
execute_event_action_again_example =
    execute_event_action_again env env 200 200 (event_step review_pass 1) (event_step review_pass 2)
      the_manager the_manager key1 with_event {r = passed} passes refl refl

abbrev suggested : InspectionTask × InspectionDb
suggested =
    value_or (add_ai_suggestion env 200 crack the_manager key1 with_task) (first_task, with_task)

abbrev assigned_task : InspectionTask
assigned_task =
    Task.apply_transition Enums.assigned 1000 (record first_task { assignee_id = some 30 })

assigned-Passes : Passes first_task 1 assigned_task
unfolding Task.transition
assigned-Passes = take_step (name_assignee no_step (some 30)) assign 1000 refl

Passes-bound_example :
    (status_index assigned_task.status ≡ status_index first_task.status + 1)
    × (1 + status_index first_task.status ≤ 4)
Passes-bound_example = Passes-bound assigned-Passes

abbrev report : Text
report = chars "楼道有燃气味"

smells : has_cue (strip report) danger_cues ≡ true
unfolding has_cue contains starts_with strip lstrip is_space
smells = refl

danger_is_high_risk_example : (normalize_security_event report (some "LOW")).1 ≡ high_risk
danger_is_high_risk_example = danger_is_high_risk report (some "LOW") smells

risk_floor_example :
    let (event_type, minimum) = classify_security_event report in
    let (result_type, risk) = normalize_security_event report (some "LOW") in
    (result_type ≡ event_type)
    × (rank minimum ≤ rank risk)
    × ((risk ≡ minimum) ⊎ (risk ≡ requested_or (some "LOW") minimum))
risk_floor_example = risk_floor report (some "LOW")

search_events-MaySee_example :
    let found = list_events 1 any_event the_manager with_event in
    (with_event ≡ with_event)
    × (length found ≤ 100)
    × All (λ e. (e.community_id ≡ 1) × (may_see_event the_manager e ≡ true)) found
unfolding search_events
search_events-MaySee_example =
    search_events-MaySee any_event the_manager with_event
      {r = (list_events 1 any_event the_manager with_event, with_event)} refl

abbrev summary : TaskSummary
summary = summary_of (aggregate_task_statuses 1 any_task the_manager with_task)

summarize_tasks_exact_example :
    let listed = select (is_listed_task 1 any_task the_manager) with_task.tasks in
    (with_task ≡ with_task)
    × (summary.total ≡ length listed)
    × (summary.done ≡ length (select is_completed listed))
    × (summary.incomplete ≡ length (select is_unfinished listed))
    × ((x : TaskStatus) → summary.status_counts x ≡ count_where (has_status x) listed)
unfolding summarize_tasks
summarize_tasks_exact_example =
    summarize_tasks_exact any_task the_manager with_task {r = (summary, with_task)} refl
