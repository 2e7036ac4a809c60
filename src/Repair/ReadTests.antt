-- ===== src/Repair/ReadTests.antt =====
-- The reads of WorkOrderService, the repository, the state machine and the ports of the repair
-- package on concrete values.
use property_community_agent.Base.{
  find, ◌⊎◌, ◌↔◌, ℕ, ◌≡◌, refl, true, false, some, [], ◌∷◌, ok, err, arith,
}
use property_community_agent.Repair.Ports.{
  check_attachment, check_attachments, is_allowed_content_type, has_duplicate, all_exist,
  ensure_usable,
}
use property_community_agent.Repair.Enums.{
  pending_assignment, pending_acceptance, processing, reworking, closed, WorkOrderStatus, assign,
  record_progress, create_review,
}
use property_community_agent.Repair.Errors.{version_conflict}
use property_community_agent.Repair.WorkOrder.{WorkOrderModel, transition, state_actions, is_in}
use property_community_agent.Repair.Repository.{
  in_community, to_domain, get, save, list, is_listed, newest_first,
}
use property_community_agent.Repair.Service.{read_roles, get_authorized, may_see}
use property_community_agent.Repair.Service.Queries.{search}
use property_community_agent.Repair.Commands.{has_any_role}
use property_community_agent.Repair.Service.Visibility.{MaySee, get_authorized-MaySee}
use property_community_agent.Repair.Repository.Saving.{save-save}
use property_community_agent.Repair.WorkOrder.Machine.{
  Edge, Stamped, transition-Edge, IsValid, state_actions_exact,
}
use property_community_agent.Repair.TestData.{
  the_resident, first_order, with_order, all_orders, next_version, saved, with_worker,
  dispatched_order, one_photo, with_photo,
}

sees : get_authorized 200 the_resident with_order ≡ ok (first_order, with_order)
unfolding get_authorized may_see get
sees = refl

get_authorized-MaySee_example :
    (with_order ≡ with_order)
    × (first_order.id ≡ 200)
    × ((m : WorkOrderModel) × (find (in_community 200 1) with_order.work_orders ≡ some m)
        × (first_order ≡ to_domain with_order.reviews m))
    × (has_any_role the_resident read_roles ≡ true)
    × MaySee the_resident first_order
get_authorized-MaySee_example =
    get_authorized-MaySee 200 the_resident with_order {p = (first_order, with_order)} sees

finds : search all_orders the_resident with_order ≡ ok (first_order ∷ [], with_order)
unfolding search list is_listed newest_first
finds = refl

saves : save next_version with_order ≡ ok (tt, saved)
unfolding save
saves = refl

save-save_example : (v : ℕ) × (save next_version saved ≡ err (version_conflict v))
save-save_example =
    save-save next_version next_version with_order {p = (tt, saved)} refl refl refl saves

moves : transition assign 1000 with_worker ≡ ok dispatched_order
unfolding transition
moves = refl

transition-Edge_example :
    Edge pending_assignment assign pending_acceptance
    × Stamped assign 1000 with_worker dispatched_order
transition-Edge_example = transition-Edge assign 1000 with_worker {w' = dispatched_order} moves

with_worker-IsValid : IsValid with_worker
with_worker-IsValid = record {
  closed_dated = λ e. cc;
  dated_closed = λ e. cc;
  assigned = λ n. refl;
  reviewed_closed = λ e. cc;
  positive = omega arith;
}

state_actions_exact_example : (is_in assign (state_actions first_order) ≡ true) ↔ (
    ((t : WorkOrderStatus) × Edge pending_assignment assign t)
    ⊎ ((assign ≡ record_progress)
        × ((pending_assignment ≡ processing) ⊎ (pending_assignment ≡ reworking)))
    ⊎ ((assign ≡ create_review) × (pending_assignment ≡ closed) × (false ≡ false)))
state_actions_exact_example = state_actions_exact assign first_order

usable : ensure_usable one_photo 20 1 with_photo ≡ ok (tt, with_photo)
unfolding ensure_usable check_attachments is_allowed_content_type check_attachment has_duplicate
    all_exist
usable = refl
