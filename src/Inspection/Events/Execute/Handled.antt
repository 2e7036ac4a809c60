-- ===== src/Inspection/Events/Execute/Handled.antt =====
-- What the handlers of an event's action have in common.
use property_community_agent.Base.{
  ℕ, ◌≡◌, refl, ◌∙◌, Bool, true, false, Option, Text, ok, subst, sym, List, [], ◌∷◌,
}
use property_community_agent.Inspection.Enums.{manager}
use property_community_agent.Inspection.EventEnums.{
  closed, EventAction, create, submit_disposal, review_pass,
}
use property_community_agent.Inspection.Event.{SecurityEvent, transition, is_ungraded}
use property_community_agent.Inspection.Event.Machine.{Edge-closed, Moved, transition-Moved}
use property_community_agent.Inspection.Commands.{RequestContext, has_any_role}
use property_community_agent.Inspection.Repository.{InspectionDb, EventDisposal}
use property_community_agent.Inspection.Events.Execute.{Outcome, is_event_handler}

-- The tables that a handler of an event leaves alone: all but the disposals.
pub record Untouched (s s' : InspectionDb) : Type 0 where
  pub same_platform : s'.platform ≡ s.platform
  pub same_events : s'.events ≡ s.events
  pub same_logs : s'.event_logs ≡ s.event_logs
  pub same_tasks : s'.tasks ≡ s.tasks
  pub same_task_logs : s'.task_logs ≡ s.task_logs
  pub same_task_records : s'.task_records ≡ s.task_records
  pub same_responses : s'.idempotency ≡ s.idempotency

-- Who may take an action.
abbrev pub has_authority : EventAction → SecurityEvent → RequestContext → Bool
has_authority submit_disposal e c = is_event_handler e c
has_authority create e c = false
has_authority _ e c = has_any_role c (manager ∷ [])

-- An action that succeeded: its actor had the authority, the event moved one version on, no table
-- but the disposals was touched, and an event closed by it has no high risk without a grade.
pub record Handled (a : EventAction) (c : RequestContext) (e : SecurityEvent) (s : InspectionDb)
    (r : Outcome × InspectionDb) : Type 0 where
  pub authority : has_authority a e c ≡ true
  pub moved : Moved e r.0.1
  pub closes : r.0.1.status ≡ closed → (a ≡ review_pass) × (is_ungraded e ≡ false)
  pub untouched : Untouched s r.1

pub unchanged : (s : InspectionDb) → Untouched s s
unchanged s = record {
  same_platform = refl;
  same_events = refl;
  same_logs = refl;
  same_tasks = refl;
  same_task_logs = refl;
  same_task_records = refl;
  same_responses = refl;
}

-- A handler that ends in a transition of the event, or of the event with another handler.
pub by_transition :
    {a b : EventAction} {c : RequestContext} {e e1 e' : SecurityEvent} {s s1 : InspectionDb}
    {reason : Option Text} {r : Outcome × InspectionDb} (now : ℕ)
    → transition b now e1 ≡ ok e'
    → b ≡ a
    → is_ungraded e1 ≡ is_ungraded e
    → (Moved e1 e' → Moved e e')
    → has_authority a e c ≡ true
    → Untouched s s1
    → r ≡ ((reason, e'), s1)
    → Handled a c e s r
by_transition {a} {b} {c} {e} {e1} {e'} {s} {s1} {reason} now h same same_grade back auth u d =
    let (edge, m, graded) = transition-Moved b now e1 h in
    subst (Handled a c e s) (sym d) (record {
      authority = auth;
      moved = back m;
      closes = λ f. (sym same ∙ Edge-closed edge f, sym same_grade ∙ graded f);
      untouched = u;
    })

pub with_disposals :
    (s : InspectionDb) (rows : List EventDisposal)
    → Untouched s (record s { event_disposals = rows })
with_disposals s rows = record {
  same_platform = refl;
  same_events = refl;
  same_logs = refl;
  same_tasks = refl;
  same_task_logs = refl;
  same_task_records = refl;
  same_responses = refl;
}
