-- ===== src/Inspection/Repository/Saving.antt =====
-- The optimistic locks of `save_task` and `save_event` in inspection/infrastructure/repository.py.
use property_community_agent.Base.{
  ℕ, ◌≡◌, find, update_where, count_where, ok, err, arith, count_where-update_where_none,
}
use property_community_agent.Inspection.Errors.{version_conflict}
use property_community_agent.Inspection.Task.{InspectionTask}
use property_community_agent.Inspection.Event.{SecurityEvent}
use property_community_agent.Inspection.Repository.Tables.{InspectionDb}
use property_community_agent.Inspection.Repository.Tasks.{is_previous_task, write_task, save_task}
use property_community_agent.Inspection.Repository.Events.{
  is_previous_event, write_event, save_event, has_event_id, reported_event_version,
}

-- What a write that got through did.
pub save_task-ok :
    (t : InspectionTask) (s : InspectionDb) {p : Unit {0} × InspectionDb}
    → save_task t s ≡ ok p
    → (count_where (is_previous_task t) s.tasks ≡ 1)
      × (p.1 ≡ record s { tasks = update_where (is_previous_task t) (write_task t) s.tasks })
unfolding save_task
save_task-ok t s {p} h = (ground arith, ground arith)

pub save_event-ok :
    (e : SecurityEvent) (s : InspectionDb) {p : Unit {0} × InspectionDb}
    → save_event e s ≡ ok p
    → (count_where (is_previous_event e) s.events ≡ 1)
      × (p.1 ≡ record s { events = update_where (is_previous_event e) (write_event e) s.events })
unfolding save_event
save_event-ok e s {p} h = (ground arith, ground arith)

-- Two writers that read the same version of an event do not both write: once one has saved, the
-- other's save is a version conflict, whatever it wants to write.
pub save_event-save_event :
    (e e2 : SecurityEvent) (s : InspectionDb) {p : Unit {0} × InspectionDb}
    → e2.id ≡ e.id
    → e2.community_id ≡ e.community_id
    → e2.version ≡ e.version
    → save_event e s ≡ ok p
    → (v : ℕ) × (save_event e2 p.1 ≡ err (version_conflict v))
unfolding save_event
save_event-save_event e e2 s {p} same_id same_community same_version h =
    let (_, written) = save_event-ok e s {p = p} h in
    let gone : count_where (is_previous_event e2) p.1.events ≡ 0 = ground (
      arith,
      written,
      count_where-update_where_none (is_previous_event e2) (is_previous_event e) (write_event e)
          s.events (λ m d. ground arith) (λ m d. ground arith),
    ) in
    (reported_event_version (find (has_event_id e2.id) p.1.events) e2, ground arith)
