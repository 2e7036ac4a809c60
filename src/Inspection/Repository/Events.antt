-- ===== src/Inspection/Repository/Events.antt =====
-- The rows of events, their status log and disposals in inspection/infrastructure/repository.py.
use property_community_agent.Base.{
  ℕ, ◌+◌, String, Bool, true, not, ◌&&◌, ◌||◌, Option, none, some, List, [], ◌∷◌, ◌++◌, map, ◌==◌,
  if◌then◌else◌, is_id, find, select, take, drop, update_where, count_where, ok, err, Action,
}
use property_community_agent.Inspection.Enums.{security_staff, manager}
use property_community_agent.Inspection.EventEnums
use property_community_agent.Inspection.EventEnums.{EventStatus}
use property_community_agent.Inspection.Errors.{InspectionError, version_conflict}
use property_community_agent.Inspection.Event.{SecurityEvent}
use property_community_agent.Inspection.Commands.{
  RequestContext, has_any_role, SecurityEventSearch, TimelineEntry,
}
use property_community_agent.Inspection.Repository.Tables.{
  EventStatusLog, EventDisposal, InspectionDb,
}
use property_community_agent.Inspection.Repository.Order.{
  is_among, empty_or, newest_first, oldest_first, entry_created_at,
}

-- `add_event`.
abbrev pub add_event : SecurityEvent → InspectionDb → InspectionDb
add_event e s = record s { events = s.events ++ e ∷ [] }

abbrev pub is_previous_event : SecurityEvent → SecurityEvent → Bool
is_previous_event e m =
    m.id == e.id && (m.community_id == e.community_id && m.version + 1 == e.version)

abbrev pub write_event : SecurityEvent → SecurityEvent → SecurityEvent
write_event e m = record m {
  status = e.status;
  assignee_id = e.assignee_id;
  grade_confirmed_by = e.grade_confirmed_by;
  report_source = e.report_source;
  version = e.version;
  updated_at = e.updated_at;
  closed_at = e.closed_at;
}

abbrev pub has_event_id : ℕ → SecurityEvent → Bool
has_event_id i m = m.id == i

abbrev pub reported_event_version : Option SecurityEvent → SecurityEvent → ℕ
reported_event_version none e = e.version
reported_event_version (some m) e = if m.version == 0 then e.version else m.version

-- `save_event`.
unfoldable pub save_event : SecurityEvent → Action InspectionDb InspectionError (Unit {0})
save_event e s =
    if count_where (is_previous_event e) s.events == 1
    then ok (tt, record s { events = update_where (is_previous_event e) (write_event e) s.events })
    else err (version_conflict (reported_event_version (find (has_event_id e.id) s.events) e))

abbrev pub event_in_community : ℕ → ℕ → SecurityEvent → Bool
event_in_community i community m = m.id == i && m.community_id == community

-- `get_event`.
unfoldable pub get_event : ℕ → ℕ → InspectionDb → Option SecurityEvent
get_event i community s = find (event_in_community i community) s.events

-- What the role of the caller hides from a list of events.
abbrev pub event_scope : RequestContext → SecurityEvent → Bool
event_scope c m =
    if has_any_role c (manager ∷ [])
    then true
    else if has_any_role c (security_staff ∷ [])
    then is_id m.assignee_id c.actor_id || m.reporter_id == c.actor_id
    else m.reporter_id == c.actor_id

-- The WHERE clauses of `list_events`.
unfoldable pub is_listed_event : ℕ → SecurityEventSearch → RequestContext → SecurityEvent → Bool
is_listed_event community q c m =
    m.community_id == community
    && (empty_or q.statuses (is_among q.statuses (EventEnums.status_value m.status))
        && (empty_or q.risk_levels (is_among q.risk_levels (EventEnums.risk_value m.risk_level))
            && ((not q.assigned_to_me || is_id m.assignee_id c.actor_id) && event_scope c m)))

abbrev event_created_at : SecurityEvent → ℕ
event_created_at e = e.created_at

-- `list_events`.
unfoldable pub list_events :
    ℕ → SecurityEventSearch → RequestContext → InspectionDb → List SecurityEvent
unfolding is_listed_event newest_first
list_events community q c s = take q.limit (
    drop q.offset (newest_first event_created_at (select (is_listed_event community q c) s.events)))

abbrev pub add_event_status_log : EventStatusLog → InspectionDb → InspectionDb
add_event_status_log l s = record s { event_logs = s.event_logs ++ l ∷ [] }

abbrev pub add_event_disposal : EventDisposal → InspectionDb → InspectionDb
add_event_disposal d s = record s { event_disposals = s.event_disposals ++ d ∷ [] }

abbrev option_event_status : Option EventStatus → Option String
option_event_status none = none
option_event_status (some s) = some (EventEnums.status_value s)

abbrev pub event_status_entry : EventStatusLog → TimelineEntry
event_status_entry l = record {
  entry_type = "STATUS";
  action = l.action_code;
  operator_id = l.operator_id;
  created_at = l.created_at;
  from_status = option_event_status l.from_status;
  to_status = some (EventEnums.status_value l.to_status);
  reason = l.reason;
  note = none;
  attachment_ids = [];
}

abbrev pub disposal_entry : EventDisposal → TimelineEntry
disposal_entry d = record {
  entry_type = "DISPOSAL";
  action = "SUBMIT_DISPOSAL";
  operator_id = d.handler_id;
  created_at = d.created_at;
  from_status = none;
  to_status = none;
  reason = none;
  note = some d.note;
  attachment_ids = d.attachment_ids;
}

abbrev event_log_of : ℕ → ℕ → EventStatusLog → Bool
event_log_of i community l = l.event_id == i && l.community_id == community

abbrev disposal_of : ℕ → ℕ → EventDisposal → Bool
disposal_of i community d = d.event_id == i && d.community_id == community

-- `event_timeline`.
unfoldable pub event_timeline : ℕ → ℕ → InspectionDb → List TimelineEntry
unfolding oldest_first
event_timeline i community s = oldest_first entry_created_at (
    map event_status_entry (select (event_log_of i community) s.event_logs)
    ++ map disposal_entry (select (disposal_of i community) s.event_disposals))
