-- ===== src/Inspection/Events/Execute/Outcome.antt =====
-- What a handler of an event's action has done when it succeeds.
use property_community_agent.Base.{
  ℕ, ◌≡◌, refl, inl, inr, none, some, ok, arith, Result-cases, Option-cases, subst, sym, [], ◌∷◌,
  ◌++◌,
}
use property_community_agent.Inspection.EventEnums.{
  pending_review, EventAction, create, assign, submit_disposal, grade_confirm, review_pass,
  return_event,
}
use property_community_agent.Inspection.Event.{SecurityEvent, transition, touch}
use property_community_agent.Inspection.Event.Machine.{Moved}
use property_community_agent.Inspection.Commands.{RequestContext, ExecuteEventAction}
use property_community_agent.Inspection.Repository.{InspectionDb}
use property_community_agent.Inspection.Ports.{ensure_security_staff, ensure_usable}
use property_community_agent.Inspection.Service.{required_text}
use property_community_agent.Inspection.Events.Execute.{
  Outcome, new_disposal, assign_event, submit_event_disposal, confirm_grade, pass_review,
  return_to_handler, event_handler, apply_event_action,
}
use property_community_agent.Inspection.Ports.Checks.{ensure_security_staff-ok, ensure_usable-ok}
use property_community_agent.Inspection.Events.Execute.Handled.{
  Handled, unchanged, with_disposals, by_transition,
}

reassigned-Moved :
    (user : ℕ) (e e' : SecurityEvent) → Moved (record e { assignee_id = some user }) e' → Moved e e'
reassigned-Moved user e e' m = record {
  same_id = m.same_id;
  same_community = m.same_community;
  same_risk = m.same_risk;
  next_version = m.next_version;
  valid = λ v. m.valid (record {
    closed_dated = v.closed_dated;
    dated_closed = v.dated_closed;
    handled = λ n. refl;
    graded = v.graded;
  });
}

assign-Handled :
    (e : SecurityEvent) (k : ExecuteEventAction) (c : RequestContext) (now : ℕ) (s : InspectionDb)
    {r : Outcome × InspectionDb}
    → k.action ≡ assign
    → assign_event e k c now s ≡ ok r
    → Handled assign c e s r
unfolding assign_event
assign-Handled e k c now s {r} a h = elim (Option-cases k.assignee_id) [
  | inl d ↦ ground arith
  | inr (user, d) ↦ elim (Result-cases (ensure_security_staff user c.community_id s)) [
    | inr (x, f) ↦ ground arith
    | inl (p, f) ↦
        let same = ensure_security_staff-ok user c.community_id s {p = p} f in
        elim (Result-cases (transition k.action now (record e { assignee_id = some user }))) [
          | inr (x, g) ↦ ground arith
          | inl (e', g) ↦
              by_transition {s1 = s} {reason = none} {r = r} now g a refl
                (reassigned-Moved user e e') (ground arith) (unchanged s) (ground arith)
        ]
  ]
]

disposal-Handled :
    (e : SecurityEvent) (k : ExecuteEventAction) (c : RequestContext) (now : ℕ) (s : InspectionDb)
    {r : Outcome × InspectionDb}
    → k.action ≡ submit_disposal
    → submit_event_disposal e k c now s ≡ ok r
    → Handled submit_disposal c e s r
unfolding submit_event_disposal
disposal-Handled e k c now s {r} a h =
    elim (Result-cases (required_text k.note "A disposal note is required.")) [
      | inr (x, d) ↦ ground arith
      | inl (note, d) ↦
          elim (Result-cases (ensure_usable k.attachment_ids c.actor_id c.community_id s)) [
            | inr (x, f) ↦ ground arith
            | inl (p, f) ↦
                let same =
                  ensure_usable-ok k.attachment_ids c.actor_id c.community_id s {p = p} f in
                let rows = s.event_disposals ++ new_disposal e k c note now ∷ [] in
                elim (Result-cases (transition k.action now e)) [
                  | inr (x, g) ↦ ground arith
                  | inl (e', g) ↦
                      by_transition {s1 = record s { event_disposals = rows }} {reason = some note}
                        {r = r} now g a refl (λ m. m) (ground arith) (with_disposals s rows)
                        (ground arith)
                ]
          ]
    ]

graded-Moved :
    (by now : ℕ) (e : SecurityEvent)
    → e.status ≡ pending_review
    → Moved e (touch now (record e { grade_confirmed_by = some by }))
graded-Moved by now e h = record {
  same_id = refl;
  same_community = refl;
  same_risk = refl;
  next_version = refl;
  valid = λ v. record {
    closed_dated = v.closed_dated;
    dated_closed = v.dated_closed;
    handled = v.handled;
    graded = λ d. cc;
  };
}

grade-Handled :
    (e : SecurityEvent) (k : ExecuteEventAction) (c : RequestContext) (now : ℕ) (s : InspectionDb)
    {r : Outcome × InspectionDb}
    → confirm_grade e k c now s ≡ ok r
    → Handled grade_confirm c e s r
unfolding confirm_grade
grade-Handled e k c now s {r} h =
    let d : r ≡ ((none, touch now (record e { grade_confirmed_by = some c.actor_id })), s) =
      ground arith in
    let waiting : e.status ≡ pending_review = ground arith in
    subst (Handled grade_confirm c e s) (sym d) (record {
      authority = ground arith;
      moved = graded-Moved c.actor_id now e waiting;
      closes = λ f. cc;
      untouched = unchanged s;
    })

pass-Handled :
    (e : SecurityEvent) (k : ExecuteEventAction) (c : RequestContext) (now : ℕ) (s : InspectionDb)
    {r : Outcome × InspectionDb}
    → pass_review e k c now s ≡ ok r
    → Handled review_pass c e s r
unfolding pass_review
pass-Handled e k c now s {r} h = elim (Result-cases (transition review_pass now e)) [
  | inr (x, g) ↦ ground arith
  | inl (e', g) ↦
      by_transition {s1 = s} {reason = none} {r = r} now g refl refl (λ m. m) (ground arith)
        (unchanged s) (ground arith)
]

return-Handled :
    (e : SecurityEvent) (k : ExecuteEventAction) (c : RequestContext) (now : ℕ) (s : InspectionDb)
    {r : Outcome × InspectionDb}
    → k.action ≡ return_event
    → return_to_handler e k c now s ≡ ok r
    → Handled return_event c e s r
unfolding return_to_handler
return-Handled e k c now s {r} a h =
    elim (Result-cases (required_text k.note "A return reason is required.")) [
      | inr (x, d) ↦ ground arith
      | inl (reason, d) ↦ elim (Result-cases (transition k.action now e)) [
        | inr (x, g) ↦ ground arith
        | inl (e', g) ↦
            by_transition {s1 = s} {reason = some reason} {r = r} now g a refl (λ m. m)
              (ground arith) (unchanged s) (ground arith)
      ]
    ]

handler-Handled :
    (a : EventAction) (e : SecurityEvent) (k : ExecuteEventAction) (c : RequestContext) (now : ℕ)
    (s : InspectionDb) {r : Outcome × InspectionDb}
    → k.action ≡ a
    → event_handler a e k c now s ≡ ok r
    → Handled a c e s r
handler-Handled assign e k c now s a h = assign-Handled e k c now s a h
handler-Handled submit_disposal e k c now s a h = disposal-Handled e k c now s a h
handler-Handled grade_confirm e k c now s a h = grade-Handled e k c now s h
handler-Handled review_pass e k c now s a h = pass-Handled e k c now s h
handler-Handled return_event e k c now s a h = return-Handled e k c now s a h
handler-Handled create e k c now s a h = cc

-- Every handler of an event that succeeds.
pub apply_event_action-Handled :
    (e : SecurityEvent) (k : ExecuteEventAction) (c : RequestContext) (now : ℕ) (s : InspectionDb)
    {r : Outcome × InspectionDb}
    → apply_event_action e k c now s ≡ ok r
    → Handled k.action c e s r
unfolding apply_event_action
apply_event_action-Handled e k c now s h = handler-Handled k.action e k c now s refl h
