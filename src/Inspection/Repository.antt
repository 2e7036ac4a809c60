-- ===== src/Inspection/Repository.antt =====
-- src/property_agent/inspection/infrastructure/repository.py over the tables of
-- inspection/infrastructure/models.py, in one session with the platform's tables. A row holds the
-- columns of the entity, so a task or an event stands for its row.
mod Tables
mod Order
mod Tasks
mod Events
pub mod Saving
pub mod Listing
pub use Tables.*
pub use Order.{is_among, empty_or, entry_created_at}
unfoldable pub use Order.{insert_newest_first, newest_first, insert_oldest_first, oldest_first}
pub use Tasks.{
  add_task, is_previous_task, write_task, has_task_id, reported_task_version, task_in_community,
  has_status, is_active, add_task_status_log, add_task_record, task_status_entry, task_record_entry,
}
unfoldable pub use Tasks.{
  save_task, get_task, is_listed_task, list_tasks, aggregate_task_statuses, find_active_tasks,
  task_timeline,
}
pub use Events.{
  add_event, is_previous_event, write_event, has_event_id, reported_event_version,
  event_in_community, event_scope, add_event_status_log, add_event_disposal, event_status_entry,
  disposal_entry,
}
unfoldable pub use Events.{save_event, get_event, is_listed_event, list_events, event_timeline}
