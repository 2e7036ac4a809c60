-- ===== src/Inspection/Events/Queries.antt =====
-- The reading operations of SecurityEventService in inspection/application/service.py.
use property_community_agent.Base.{ℕ, ◌&&◌, List, [], ◌∷◌, if◌then◌else◌, Action, ◌>>=◌, ◌>>◌, gets}
use property_community_agent.Inspection.Enums.{manager}
use property_community_agent.Inspection.EventEnums.{
  reported, assigned, pending_review, EventAction, assign, submit_disposal, grade_confirm,
  review_pass, return_event, status_eq,
}
use property_community_agent.Inspection.Errors.{InspectionError}
use property_community_agent.Inspection.Event.{SecurityEvent, is_ungraded}
use property_community_agent.Inspection.Commands.{
  RequestContext, has_any_role, SecurityEventSearch, TimelineEntry,
}
use property_community_agent.Inspection.Repository.{InspectionDb, list_events, event_timeline}
use property_community_agent.Inspection.Service.{require_role, validate_pagination}
use property_community_agent.Inspection.Events.{event_read_roles}
use property_community_agent.Inspection.Events.Execute.{is_event_handler, get_authorized_event}

-- `search_events`.
unfoldable pub search_events :
    SecurityEventSearch → RequestContext → Action InspectionDb InspectionError (List SecurityEvent)
search_events q c = do
  require_role c event_read_roles
  validate_pagination q.limit
  gets (list_events c.community_id q c)

-- `get_event` of the service is `get_authorized_event`; this is the timeline.
unfoldable pub read_event_timeline :
    ℕ → RequestContext → Action InspectionDb InspectionError (List TimelineEntry)
read_event_timeline i c = do e ← get_authorized_event i c; gets (event_timeline i c.community_id)

-- `available_event_actions`.
unfoldable pub available_event_actions : SecurityEvent → RequestContext → List EventAction
available_event_actions e c =
    if status_eq e.status reported && has_any_role c (manager ∷ [])
    then assign ∷ []
    else if status_eq e.status assigned && is_event_handler e c
    then submit_disposal ∷ []
    else if status_eq e.status pending_review && has_any_role c (manager ∷ [])
    then if is_ungraded e then grade_confirm ∷ [] else review_pass ∷ return_event ∷ []
    else []
