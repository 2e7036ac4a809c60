-- ===== src/Inspection/Tasks/Execute/Handled.antt =====
-- What the handlers of a task's action have in common.
use property_community_agent.Base.{
  ℕ, ◌≤◌, ◌≡◌, refl, ap, Bool, true, false, Option, Text, ok, arith, subst, sym, List, [], ◌∷◌,
}
use property_community_agent.Platform.Tables.{PlatformDb}
use property_community_agent.Platform.ConfirmationPort.{consume_confirmation}
use property_community_agent.Inspection.Enums.{
  TaskAction, create, assign, submit_records, complete, status_index, manager,
}
use property_community_agent.Inspection.Task.{InspectionTask, transition}
use property_community_agent.Inspection.Task.Machine.{Edge-advance, SamePlan, transition-Edge}
use property_community_agent.Inspection.Commands.{
  RequestContext, has_any_role, Command, ExecuteTaskAction,
}
use property_community_agent.Inspection.Repository.{InspectionDb, TaskRecord}
use property_community_agent.Inspection.Ports.{token_text}
use property_community_agent.Inspection.Service.{Environment, submission_payload}
use property_community_agent.Inspection.Tasks.Handlers.{Outcome, is_task_assignee}

-- A handler of a task leaves all tables alone but the records of tasks and the platform's, where a
-- submission consumes its confirmation.
pub record Untouched (s s' : InspectionDb) : Type 0 where
  pub same_tasks : s'.tasks ≡ s.tasks
  pub same_logs : s'.task_logs ≡ s.task_logs
  pub same_events : s'.events ≡ s.events
  pub same_responses : s'.idempotency ≡ s.idempotency

-- Who may take an action.
abbrev pub has_task_authority : TaskAction → InspectionTask → RequestContext → Bool
has_task_authority assign t c = has_any_role c (manager ∷ [])
has_task_authority complete t c = has_any_role c (manager ∷ [])
has_task_authority create t c = false
has_task_authority _ t c = is_task_assignee t c

-- What the consumption of the confirmation of a submission leaves, which covers its note, its kind
-- and its point.
abbrev pub Consumes :
    Environment → Command ExecuteTaskAction → RequestContext → PlatformDb → PlatformDb → Type 0
Consumes env k c before after =
    consume_confirmation env.fence k.confirmation.approval_ref
      (token_text k.confirmation.confirmation_token) c.actor_id "INSPECTION_TASK_SUBMIT_RECORDS"
      (env.canonical_hash
        (submission_payload k.business.note k.business.record_type k.business.point))
      env.now before
    ≡ ok (tt, after)

-- An action that succeeded: its actor had the authority, the task kept its plan and went one version
-- on and not back, and a submission was confirmed.
pub record Handled (a : TaskAction) (env : Environment) (k : Command ExecuteTaskAction)
    (c : RequestContext) (t : InspectionTask) (s : InspectionDb) (r : Outcome × InspectionDb)
    : Type 0 where
  pub authority : has_task_authority a t c ≡ true
  pub same_plan : SamePlan t r.0.1
  pub forward : status_index t.status ≤ status_index r.0.1.status
  pub confirmed : a ≡ submit_records → Consumes env k c s.platform r.1.platform
  pub untouched : Untouched s r.1

pub unchanged : (s : InspectionDb) → Untouched s s
unchanged s = record {
  same_tasks = refl;
  same_logs = refl;
  same_events = refl;
  same_responses = refl;
}

pub with_records :
    (s : InspectionDb) (rows : List TaskRecord) → Untouched s (record s { task_records = rows })
with_records s rows = record {
  same_tasks = refl;
  same_logs = refl;
  same_events = refl;
  same_responses = refl;
}

-- A handler that ends in a transition of the task, or of the task with another assignee.
pub by_transition :
    {a : TaskAction} {env : Environment} {k : Command ExecuteTaskAction} {c : RequestContext}
    {t t1 t' : InspectionTask} {s s1 : InspectionDb} {reason : Option Text}
    {r : Outcome × InspectionDb} (b : TaskAction) (now : ℕ)
    → transition b now t1 ≡ ok t'
    → t1.status ≡ t.status
    → (SamePlan t1 t' → SamePlan t t')
    → has_task_authority a t c ≡ true
    → (a ≡ submit_records → Consumes env k c s.platform s1.platform)
    → Untouched s s1
    → r ≡ ((reason, t'), s1)
    → Handled a env k c t s r
by_transition {a} {env} {k} {c} {t} {t1} {t'} {s} {s1} {reason} b now h same back auth is_confirmed
      u d =
    let (edge, m) = transition-Edge b now t1 h in
    subst (Handled a env k c t s) (sym d) (record {
      authority = auth;
      same_plan = back m;
      forward = omega (arith, Edge-advance edge, ap status_index same);
      confirmed = is_confirmed;
      untouched = u;
    })
