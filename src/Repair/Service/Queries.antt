-- ===== src/Repair/Service/Queries.antt =====
-- The reads of src/property_agent/repair/application/service.py: `search`, `get`, `timeline`, and
-- `available_actions`.
pub mod Listing
use property_community_agent.Base.{
  ℕ, Bool, true, false, not, ◌&&◌, ◌||◌, Option, none, some, List, [], ◌∷◌, leb, if◌then◌else◌,
  is_id, mem_id, Action, ◌>>=◌, ◌>>◌, require, gets,
}
use property_community_agent.Repair.Enums.{
  resident, repair_worker, manager, WorkOrderStatus, pending_assignment, pending_acceptance,
  processing, pending_verification, reworking, closed, ActionCode, assign, accept, reject,
  record_progress, submit_completion, verify_pass, request_rework, submit_rework_completion,
  create_review,
}
use property_community_agent.Repair.Errors.{RepairError, validation_error}
use property_community_agent.Repair.WorkOrder.{WorkOrder}
use property_community_agent.Repair.Commands.{
  RequestContext, has_any_role, WorkOrderSearch, TimelineEntry,
}
use property_community_agent.Repair.Repository as Repository
use property_community_agent.Repair.Repository.{RepairDb, restricted_to}
use property_community_agent.Repair.Service.{
  assign_roles, read_roles, denied, require_role, get_authorized,
}

abbrev house_allowed : Option ℕ → RequestContext → Bool
house_allowed none c = true
house_allowed (some h) c = not (restricted_to c resident) || mem_id h c.house_ids

-- `search`. The offset is a natural number here.
unfoldable pub search :
    WorkOrderSearch → RequestContext → Action RepairDb RepairError (List WorkOrder)
search q c = do
  require_role c read_roles
  require (leb 1 q.limit && leb q.limit 100)
      (validation_error "Pagination must use offset >= 0 and limit between 1 and 100.")
  require (house_allowed q.house_id c) denied
  gets (Repository.list c.community_id q c)

-- `timeline`.
unfoldable pub timeline_of : ℕ → RequestContext → Action RepairDb RepairError (List TimelineEntry)
timeline_of i c = do w ← get_authorized i c; gets (Repository.timeline w.id c.community_id)

abbrev pub actions_in : WorkOrderStatus → WorkOrder → RequestContext → List ActionCode
actions_in pending_assignment w c = if has_any_role c assign_roles then assign ∷ [] else []
actions_in pending_acceptance w c =
    if c.roles repair_worker && is_id w.assignee_id c.actor_id then accept ∷ reject ∷ [] else []
actions_in processing w c =
    if c.roles repair_worker && is_id w.assignee_id c.actor_id
    then record_progress ∷ submit_completion ∷ []
    else []
actions_in reworking w c =
    if c.roles repair_worker && is_id w.assignee_id c.actor_id
    then record_progress ∷ submit_rework_completion ∷ []
    else []
actions_in pending_verification w c =
    if c.roles manager || c.roles resident && mem_id w.house_id c.house_ids
    then verify_pass ∷ request_rework ∷ []
    else []
actions_in closed w c =
    if not w.has_review && (c.roles resident && mem_id w.house_id c.house_ids)
    then create_review ∷ []
    else []

-- `available_actions`.
unfoldable pub available_actions : WorkOrder → RequestContext → List ActionCode
available_actions w c = actions_in w.status w c
