-- ===== src/Inspection/Event/Machine.antt =====
-- The state machine of a security event of inspection/domain/entities.py, and what every event keeps.
use property_community_agent.Base.{
  ℕ, ◌+◌, ◌≡◌, refl, ◌≢◌, sym, subst, true, false, Option, none, some, is_some, ok, arith,
}
use property_community_agent.Inspection.EventEnums.{
  EventStatus, reported, assigned, pending_review, closed, EventAction, assign, submit_disposal,
  review_pass, return_event,
}
use property_community_agent.Inspection.Event.{
  SecurityEvent, target_of, is_ungraded, apply_transition, transition_to, transition,
}

-- The diagram of `EVENT_TRANSITIONS`.
pub data Edge : EventStatus → EventAction → EventStatus → Type 0 where
  dispatched : Edge reported assign assigned
  handled : Edge assigned submit_disposal pending_review
  passed : Edge pending_review review_pass closed
  returned : Edge pending_review return_event assigned

ruleset edges = (dispatched, handled, passed, returned)

target_of-Edge :
    (s : EventStatus) (a : EventAction) (t : EventStatus) → target_of s a ≡ some t → Edge s a t
target_of-Edge s a t h = grind (arith, edges)

-- Only a passed review closes.
pub Edge-closed : {s t : EventStatus} {a : EventAction} → Edge s a t → t ≡ closed → a ≡ review_pass
Edge-closed dispatched e = cc
Edge-closed handled e = cc
Edge-closed passed e = refl
Edge-closed returned e = cc

transition_to-ok :
    (o : Option EventStatus) (a : EventAction) (now : ℕ) (e : SecurityEvent) {e' : SecurityEvent}
    → transition_to o a now e ≡ ok e'
    → (t : EventStatus) × (o ≡ some t)
      × (e' ≡ apply_transition t now e)
      × (a ≡ assign → is_some e.assignee_id ≡ true)
      × (a ≡ review_pass → is_ungraded e ≡ false)
transition_to-ok none a now e h = cc
transition_to-ok (some t) a now e h = (t, refl, ground arith, ground arith, ground arith)

-- What every event keeps: the closing time and the handler fit the state, and an event of high risk
-- is closed only with a grade that somebody confirmed.
pub record IsValid (e : SecurityEvent) : Type 0 where
  pub closed_dated : e.status ≡ closed → is_some e.closed_at ≡ true
  pub dated_closed : is_some e.closed_at ≡ true → e.status ≡ closed
  pub handled : e.status ≢ reported → is_some e.assignee_id ≡ true
  pub graded : e.status ≡ closed → is_ungraded e ≡ false

apply_transition-IsValid :
    {s t : EventStatus} {a : EventAction} (now : ℕ) (e : SecurityEvent)
    → Edge s a t
    → e.status ≡ s
    → (a ≡ assign → is_some e.assignee_id ≡ true)
    → (a ≡ review_pass → is_ungraded e ≡ false)
    → IsValid e
    → IsValid (apply_transition t now e)
apply_transition-IsValid now e dispatched h k l v = ground arith
apply_transition-IsValid now e handled h k l v = ground arith
apply_transition-IsValid now e passed h k l v = ground arith
apply_transition-IsValid now e returned h k l v = ground arith

-- A change of an event that the service saves: the next version, and nothing of its identity.
pub record Moved (e e' : SecurityEvent) : Type 0 where
  pub same_id : e'.id ≡ e.id
  pub same_community : e'.community_id ≡ e.community_id
  pub same_risk : e'.risk_level ≡ e.risk_level
  pub next_version : e'.version ≡ e.version + 1
  pub valid : IsValid e → IsValid e'

apply_transition-Moved :
    {s t : EventStatus} {a : EventAction} (now : ℕ) (e : SecurityEvent)
    → Edge s a t
    → e.status ≡ s
    → (a ≡ assign → is_some e.assignee_id ≡ true)
    → (a ≡ review_pass → is_ungraded e ≡ false)
    → Moved e (apply_transition t now e)
apply_transition-Moved now e d h k l = record {
  same_id = refl;
  same_community = refl;
  same_risk = refl;
  next_version = refl;
  valid = apply_transition-IsValid now e d h k l;
}

-- A transition that is accepted follows an edge of the diagram, by one version, and closes an event
-- only if it is of no high risk or its grade is confirmed.
pub transition-Moved :
    (a : EventAction) (now : ℕ) (e : SecurityEvent) {e' : SecurityEvent}
    → transition a now e ≡ ok e'
    → Edge e.status a e'.status × Moved e e' × (e'.status ≡ closed → is_ungraded e ≡ false)
unfolding transition
transition-Moved a now e {e'} h =
    let (t, o, same, has_assignee, is_graded) = transition_to-ok (target_of e.status a) a now e h in
    let d = target_of-Edge e.status a t o in
    (
      subst (λ (x : SecurityEvent). Edge e.status a x.status) (sym same) d,
      subst (Moved e) (sym same) (apply_transition-Moved now e d refl has_assignee is_graded),
      λ (c : e'.status ≡ closed). ground arith,
    )
