-- ===== src/Inspection/Visibility.antt =====
-- What the reading operations of the services in inspection/application/service.py show to whom.
use property_community_agent.Base.{
  ◌+◌, ◌≤◌, ◌≡◌, refl, Bool, true, false, List, [], ◌∷◌, count_where, length, select, ok, arith,
  All, All-weaken, subst, sym,
}
use property_community_agent.Inspection.Enums.{
  TaskStatus, planned, assigned, in_progress, submitted, completed,
}
use property_community_agent.Inspection.Task.{InspectionTask}
use property_community_agent.Inspection.Event.{SecurityEvent}
use property_community_agent.Inspection.Commands.{
  RequestContext, InspectionTaskSearch, SecurityEventSearch,
}
use property_community_agent.Inspection.Repository.{
  InspectionDb, has_status, is_listed_task, list_tasks, aggregate_task_statuses, is_listed_event,
  list_events,
}
use property_community_agent.Inspection.Repository.Listing.{
  list_tasks-listed, list_events-listed, counts-length,
}
use property_community_agent.Inspection.Tasks.Handlers.{may_see_task}
use property_community_agent.Inspection.Tasks.Queries.{TaskSummary, search_tasks, summarize_tasks}
use property_community_agent.Inspection.Events.Execute.{may_see_event}
use property_community_agent.Inspection.Events.Queries.{search_events}

listed_event-seen :
    (q : SecurityEventSearch) (c : RequestContext) (e : SecurityEvent)
    → is_listed_event c.community_id q c e ≡ true
    → (e.community_id ≡ c.community_id) × (may_see_event c e ≡ true)
unfolding is_listed_event
listed_event-seen q c e h = (ground arith, ground arith)

listed_task-seen :
    (q : InspectionTaskSearch) (c : RequestContext) (t : InspectionTask)
    → is_listed_task c.community_id q c t ≡ true
    → (t.community_id ≡ c.community_id) × (may_see_task c t ≡ true)
unfolding is_listed_task
listed_task-seen q c t h = (ground arith, ground arith)

-- A search of events that succeeds changes nothing and returns at most a hundred of them, each of the
-- caller's community and one that the caller may read on its own.
pub search_events-MaySee :
    (q : SecurityEventSearch) (c : RequestContext) (s : InspectionDb)
    {r : List SecurityEvent × InspectionDb}
    → search_events q c s ≡ ok r
    → (r.1 ≡ s)
      × (length r.0 ≤ 100)
      × All (λ e. (e.community_id ≡ c.community_id) × (may_see_event c e ≡ true)) r.0
unfolding search_events
search_events-MaySee q c s {r} h =
    let found = list_events c.community_id q c s in
    let (listed, few) = list_events-listed c.community_id q c s in
    let seen =
      All-weaken (λ x. is_listed_event c.community_id q c x ≡ true)
        (λ x. (x.community_id ≡ c.community_id) × (may_see_event c x ≡ true)) found
        (listed_event-seen q c) listed in
    let d : r.0 ≡ found = ground arith in
    (
      ground arith,
      ground arith,
      subst
          (λ (xs : List SecurityEvent).
            All (λ x. (x.community_id ≡ c.community_id) × (may_see_event c x ≡ true)) xs)
          (sym d) seen,
    )

search_tasks-MaySee :
    (q : InspectionTaskSearch) (c : RequestContext) (s : InspectionDb)
    {r : List InspectionTask × InspectionDb}
    → search_tasks q c s ≡ ok r
    → (r.1 ≡ s)
      × (length r.0 ≤ 100)
      × All (λ t. (t.community_id ≡ c.community_id) × (may_see_task c t ≡ true)) r.0
unfolding search_tasks
search_tasks-MaySee q c s {r} h =
    let found = list_tasks c.community_id q c s in
    let (listed, few) = list_tasks-listed c.community_id q c s in
    let seen =
      All-weaken (λ x. is_listed_task c.community_id q c x ≡ true)
        (λ x. (x.community_id ≡ c.community_id) × (may_see_task c x ≡ true)) found
        (listed_task-seen q c) listed in
    let d : r.0 ≡ found = ground arith in
    (
      ground arith,
      ground arith,
      subst
          (λ (xs : List InspectionTask).
            All (λ x. (x.community_id ≡ c.community_id) × (may_see_task c x ≡ true)) xs)
          (sym d) seen,
    )

-- A task that is completed, and one that is not.
abbrev pub is_completed : InspectionTask → Bool
is_completed t = elim t.status [ completed ↦ true | _ ↦ false ]

abbrev pub is_unfinished : InspectionTask → Bool
is_unfinished t = elim t.status [ completed ↦ false | _ ↦ true ]

completed_exact :
    (ts : List InspectionTask)
    → count_where (has_status completed) ts ≡ length (select is_completed ts)
completed_exact [] = refl
completed_exact (t ∷ ts) = ground (arith, completed_exact ts)

open_exact :
    (ts : List InspectionTask)
    → count_where (has_status planned) ts
        + count_where (has_status assigned) ts
        + count_where (has_status in_progress) ts
        + count_where (has_status submitted) ts
      ≡ length (select is_unfinished ts)
open_exact [] = refl
open_exact (t ∷ ts) = ground (arith, open_exact ts)

-- The summary of tasks changes nothing and is exact. Of all tasks that meet the conditions of the
-- search for this caller, on whatever page, its total is the number of them, `done` the number of
-- those that are completed, `incomplete` that of those that are not, and the count of a status the
-- number of those in it.
pub summarize_tasks_exact :
    (q : InspectionTaskSearch) (c : RequestContext) (s : InspectionDb)
    {r : TaskSummary × InspectionDb}
    → summarize_tasks q c s ≡ ok r
    → let listed = select (is_listed_task c.community_id q c) s.tasks in
      (r.1 ≡ s)
      × (r.0.total ≡ length listed)
      × (r.0.done ≡ length (select is_completed listed))
      × (r.0.incomplete ≡ length (select is_unfinished listed))
      × ((x : TaskStatus) → r.0.status_counts x ≡ count_where (has_status x) listed)
unfolding summarize_tasks aggregate_task_statuses
summarize_tasks_exact q c s {r} h =
    let listed = select (is_listed_task c.community_id q c) s.tasks in
    let counted = counts-length listed in
    (
      ground arith,
      ground arith,
      ground (arith, completed_exact listed),
      ground (arith, open_exact listed),
      λ x. ground arith,
    )
