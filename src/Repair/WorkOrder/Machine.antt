-- ===== src/Repair/WorkOrder/Machine.antt =====
-- The state machine of repair/domain/entities.py as a relation, and what every work order keeps.
use property_community_agent.Base.{
  ℕ, ◌+◌, ◌≤◌, ◌≡◌, refl, ◌≢◌, ◌⊎◌, ◌↔◌, inl, inr, true, false, Option, none, some, is_some,
  Option-cases, subst, sym, ok, arith,
}
use property_community_agent.Repair.Enums.{
  WorkOrderStatus, ActionCode, pending_assignment, pending_acceptance, processing,
  pending_verification, reworking, closed, assign, accept, reject, record_progress,
  submit_completion, verify_pass, request_rework, submit_rework_completion, create_review,
}
use property_community_agent.Repair.WorkOrder.{
  WorkOrder, target_of, state_actions, is_in, apply_transition, transition_to, transition,
}

-- The diagram of `TRANSITIONS`.
pub data Edge : WorkOrderStatus → ActionCode → WorkOrderStatus → Type 0 where
  dispatched : Edge pending_assignment assign pending_acceptance
  accepted : Edge pending_acceptance accept processing
  rejected : Edge pending_acceptance reject pending_assignment
  completed : Edge processing submit_completion pending_verification
  passed : Edge pending_verification verify_pass closed
  returned : Edge pending_verification request_rework reworking
  recompleted : Edge reworking submit_rework_completion pending_verification

ruleset edges = (dispatched, accepted, rejected, completed, passed, returned, recompleted)

target_of-Edge :
    (s : WorkOrderStatus) (a : ActionCode) (t : WorkOrderStatus)
    → target_of s a ≡ some t
    → Edge s a t
target_of-Edge s a t h = grind (arith, edges)

Edge-target_of :
    {s : WorkOrderStatus} {a : ActionCode} {t : WorkOrderStatus}
    → Edge s a t
    → target_of s a ≡ some t
Edge-target_of dispatched = refl
Edge-target_of accepted = refl
Edge-target_of rejected = refl
Edge-target_of completed = refl
Edge-target_of passed = refl
Edge-target_of returned = refl
Edge-target_of recompleted = refl

-- What a transition leaves as it was, and what it stamps.
pub record Stamped (a : ActionCode) (now : ℕ) (w w' : WorkOrder) : Type 0 where
  pub same_id : w'.id ≡ w.id
  pub same_community : w'.community_id ≡ w.community_id
  pub same_house : w'.house_id ≡ w.house_id
  pub same_reporter : w'.reporter_id ≡ w.reporter_id
  pub same_review : w'.has_review ≡ w.has_review
  pub next_version : w'.version ≡ w.version + 1
  pub stamped : w'.updated_at ≡ now
  pub kept_assignee : a ≢ reject → w'.assignee_id ≡ w.assignee_id
  pub freed : a ≡ reject → w'.assignee_id ≡ none

transition_to-ok :
    (o : Option WorkOrderStatus) (a : ActionCode) (now : ℕ) (w : WorkOrder) {w' : WorkOrder}
    → transition_to o a now w ≡ ok w'
    → (t : WorkOrderStatus) × (o ≡ some t)
      × (w' ≡ apply_transition a t now w)
      × (a ≡ assign → is_some w.assignee_id ≡ true)
transition_to-ok none a now w h = cc
transition_to-ok (some t) a now w h = (t, refl, ground arith, ground arith)

apply_transition-Stamped :
    (a : ActionCode) (t : WorkOrderStatus) (now : ℕ) (w : WorkOrder)
    → Stamped a now w (apply_transition a t now w)
apply_transition-Stamped a t now w = ground arith

-- A transition that is accepted follows an edge of the diagram, stamps the version and the time,
-- frees the assignee exactly on a rejection, and changes nothing else of the work order's identity.
pub transition-Edge :
    (a : ActionCode) (now : ℕ) (w : WorkOrder) {w' : WorkOrder}
    → transition a now w ≡ ok w'
    → Edge w.status a w'.status × Stamped a now w w'
unfolding transition
transition-Edge a now w {w'} h =
    let (t, e, k, _) = transition_to-ok (target_of w.status a) a now w h in
    subst (λ (x : WorkOrder). Edge w.status a x.status × Stamped a now w x) (sym k)
      (target_of-Edge w.status a t e, apply_transition-Stamped a t now w)

-- Every edge is taken: an assignment wants an assignee, and the others want nothing.
pub Edge-transition :
    (a : ActionCode) (now : ℕ) (w : WorkOrder) {t : WorkOrderStatus}
    → Edge w.status a t
    → (a ≡ assign → w.assignee_id ≢ none)
    → transition a now w ≡ ok (apply_transition a t now w)
unfolding transition
Edge-transition a now w e has_assignee = ground (arith, Edge-target_of e)

-- What every work order keeps: the closing time, the assignee and the review fit the state.
pub record IsValid (w : WorkOrder) : Type 0 where
  pub closed_dated : w.status ≡ closed → is_some w.closed_at ≡ true
  pub dated_closed : is_some w.closed_at ≡ true → w.status ≡ closed
  pub assigned : w.status ≢ pending_assignment → is_some w.assignee_id ≡ true
  pub reviewed_closed : w.has_review ≡ true → w.status ≡ closed
  pub positive : 1 ≤ w.version

apply_transition-IsValid :
    {s t : WorkOrderStatus} {a : ActionCode} (now : ℕ) (w : WorkOrder)
    → Edge s a t
    → w.status ≡ s
    → (a ≡ assign → is_some w.assignee_id ≡ true)
    → IsValid w
    → IsValid (apply_transition a t now w)
apply_transition-IsValid now w dispatched e k v = ground arith
apply_transition-IsValid now w accepted e k v = ground arith
apply_transition-IsValid now w rejected e k v = ground arith
apply_transition-IsValid now w completed e k v = ground arith
apply_transition-IsValid now w passed e k v = ground arith
apply_transition-IsValid now w returned e k v = ground arith
apply_transition-IsValid now w recompleted e k v = ground arith

-- A transition keeps a work order valid.
pub transition-IsValid :
    (a : ActionCode) (now : ℕ) (w : WorkOrder) {w' : WorkOrder}
    → IsValid w
    → transition a now w ≡ ok w'
    → IsValid w'
unfolding transition
transition-IsValid a now w v h =
    let (t, e, k, has_assignee) = transition_to-ok (target_of w.status a) a now w h in
    subst IsValid (sym k)
      (apply_transition-IsValid now w (target_of-Edge w.status a t e) refl has_assignee v)

-- The state lists exactly the actions that it allows: those with an edge, a progress record while
-- work is under way, and a review of a closed work order without one.
pub state_actions_exact :
    (a : ActionCode) (w : WorkOrder)
    → (is_in a (state_actions w) ≡ true) ↔ (
        ((t : WorkOrderStatus) × Edge w.status a t)
        ⊎ ((a ≡ record_progress) × ((w.status ≡ processing) ⊎ (w.status ≡ reworking)))
        ⊎ ((a ≡ create_review) × (w.status ≡ closed) × (w.has_review ≡ false)))
unfolding state_actions
state_actions_exact a w = (
  (λ (listed : is_in a (state_actions w) ≡ true). elim (Option-cases (target_of w.status a)) [
    | inr (t, e) ↦ inl (t, target_of-Edge w.status a t e)
    | inl e ↦ inr (ground arith)
  ]),
  elim [ inl (t, e) ↦ ground (arith, Edge-target_of e) | inr other ↦ ground arith ],
)

-- A sequence of actions that the table allows, ending in the closed state.
pub data PathToClosed : WorkOrderStatus → Type 0 where
  here : PathToClosed closed
  step :
      {s t : WorkOrderStatus} (a : ActionCode)
      → target_of s a ≡ some t
      → PathToClosed t
      → PathToClosed s

from_verification : PathToClosed pending_verification
from_verification = step verify_pass refl here

from_acceptance : PathToClosed pending_acceptance
from_acceptance = step accept refl (step submit_completion refl from_verification)

-- Work is never stuck: from every state the table leads to the closed state.
pub reaches_closed : (s : WorkOrderStatus) → PathToClosed s
reaches_closed pending_assignment = step assign refl from_acceptance
reaches_closed pending_acceptance = from_acceptance
reaches_closed processing = step submit_completion refl from_verification
reaches_closed pending_verification = from_verification
reaches_closed reworking = step submit_rework_completion refl from_verification
reaches_closed closed = here
