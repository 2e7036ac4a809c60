-- ===== src/Inspection/Tasks/Execute/Effects.antt =====
-- What a completed `execute_task_action` of inspection/application/service.py has done.
use property_community_agent.Base.{
  ℕ, ◌≤◌, ◌≡◌, refl, ◌⊎◌, inl, inr, true, Bool-cases, Option, some, ◌||◌, find, update_where,
  count_where, ◌==◌, Text, ok, arith, Result-cases, Option-cases, subst, sym,
}
use property_community_agent.Platform.Tables.{PlatformDb}
use property_community_agent.Platform.Idempotency.{add_idempotency}
use property_community_agent.Inspection.Enums.{
  TaskStatus, start, submit_records, add_record, action_eq, status_index,
}
use property_community_agent.Inspection.Task.{InspectionTask}
use property_community_agent.Inspection.Task.Machine.{SamePlan}
use property_community_agent.Inspection.Commands.{RequestContext, Command, ExecuteTaskAction}
use property_community_agent.Inspection.Snapshot.{task_of_response, task_response, task_snapshot}
use property_community_agent.Inspection.Repository.{
  InspectionDb, task_in_community, get_task, is_previous_task, write_task, save_task,
}
use property_community_agent.Inspection.Repository.Saving.{save_task-ok}
use property_community_agent.Inspection.Ports.Confirmed.{consume_agent_write-ok}
use property_community_agent.Inspection.Service.{
  Environment, task_action_payload, key_of, operator_role, is_idempotency_key, record_task,
  add_audit,
}
use property_community_agent.Inspection.Service.Responses.{or_replay-ok}
use property_community_agent.Inspection.Tasks.{log_task}
use property_community_agent.Inspection.Tasks.Handlers.{
  may_see_task, get_authorized_task, apply_task_action,
}
use property_community_agent.Inspection.Tasks.Execute.{
  task_operation, consume_task_write, task_audit, log_task_action, finish_task_action,
  run_task_action, execute_task_action,
}
use property_community_agent.Inspection.Tasks.Execute.Handled.{
  Untouched, has_task_authority, Consumes,
}
use property_community_agent.Inspection.Tasks.Execute.Steps.{apply_task_action-Handled}

pub get_authorized_task-ok :
    (i : ℕ) (c : RequestContext) (s : InspectionDb) {r : InspectionTask × InspectionDb}
    → get_authorized_task i c s ≡ ok r
    → (r.1 ≡ s)
      × (find (task_in_community i c.community_id) s.tasks ≡ some r.0)
      × (may_see_task c r.0 ≡ true)
unfolding get_authorized_task get_task
get_authorized_task-ok i c s {r} h =
    elim (Option-cases (find (task_in_community i c.community_id) s.tasks)) [
      | inl e ↦ ground arith
      | inr (m, e) ↦ (ground arith, ground arith, ground arith)
    ]

log_task_action-kept :
    (k : ExecuteTaskAction) (c : RequestContext) (from : TaskStatus) (reason : Option Text)
    (t' : InspectionTask) (now : ℕ) (s : InspectionDb) {p : Unit {0} × InspectionDb}
    → log_task_action k c from reason t' now s ≡ ok p
    → p.1 ≡ record s { task_logs = p.1.task_logs }
unfolding log_task_action log_task
log_task_action-kept k c from reason t' now s {p} h =
    elim (Bool-cases (action_eq k.action add_record)) [
      | inl b ↦ ground arith
      | inr b ↦ elim (Result-cases (operator_role c)) [
        | inl (role, d) ↦ ground arith
        | inr (x, d) ↦ ground arith
      ]
    ]

-- The trace of an action in the tables.
pub record Written (env : Environment) (i : ℕ) (k : ExecuteTaskAction) (c : RequestContext)
    (key : Text) (s : InspectionDb) (r : InspectionTask × InspectionDb) : Type 0 where
  pub tasks : r.1.tasks ≡ update_where (is_previous_task r.0) (write_task r.0) s.tasks
  pub only : count_where (is_previous_task r.0) s.tasks ≡ 1
  pub same_events : r.1.events ≡ s.events
  pub response :
      r.1.idempotency
      ≡ add_idempotency
          (key_of c (task_operation k) key)
          (env.canonical_hash (task_action_payload i k))
          r.0.id
          (task_response (task_snapshot r.0))
          s.idempotency

finish_task_action-Written :
    (env : Environment) (i : ℕ) (k : ExecuteTaskAction) (c : RequestContext) (key : Text)
    (from : TaskStatus) (reason : Option Text) (t' : InspectionTask) (s : InspectionDb)
    {r : InspectionTask × InspectionDb}
    → finish_task_action env i k c key from reason t' s ≡ ok r
    → (r.0 ≡ t')
      × (r.1.platform.tokens ≡ s.platform.tokens)
      × (r.1.platform.approvals ≡ s.platform.approvals)
      × Written env i k c key s r
unfolding finish_task_action
finish_task_action-Written env i k c key from reason t' s {r} h =
    let s0 =
      record_task c (task_operation k) key (env.canonical_hash (task_action_payload i k)) t' s in
    elim (Result-cases (log_task_action k c from reason t' env.now s0)) [
      | inr (x, d) ↦ ground arith
      | inl (p, d) ↦
          let logged = log_task_action-kept k c from reason t' env.now s0 {p = p} d in
          elim (Result-cases (save_task t' p.1)) [
            | inr (x, f) ↦ ground arith
            | inl (q, f) ↦
                let (one, saved) = save_task-ok t' p.1 {p = q} f in
                let final : r ≡ (t', add_audit (task_audit k c reason t') q.1) = ground arith in
                subst
                  (λ (x : InspectionTask × InspectionDb).
                    (x.0 ≡ t')
                    × (x.1.platform.tokens ≡ s.platform.tokens)
                    × (x.1.platform.approvals ≡ s.platform.approvals)
                    × Written env i k c key s x)
                  (sym final)
                  (
                    refl,
                    ground arith,
                    ground arith,
                    record {
                      tasks = ground arith;
                      only = ground arith;
                      same_events = ground arith;
                      response = ground arith;
                    },
                  )
          ]
    ]

-- What a completed action shows of the task that it found and of the one that it returned.
pub record Done (env : Environment) (i : ℕ) (k : Command ExecuteTaskAction) (c : RequestContext)
    (key : Text) (s : InspectionDb) (t : InspectionTask) (r : InspectionTask × InspectionDb)
    : Type 0 where
  pub found : find (task_in_community i c.community_id) s.tasks ≡ some t
  pub seen : may_see_task c t ≡ true
  pub expected : t.version ≡ k.business.expected_version
  pub authority : has_task_authority k.business.action t c ≡ true
  pub same_plan : SamePlan t r.0
  pub forward : status_index t.status ≤ status_index r.0.status
  pub confirmed :
      k.business.action ≡ submit_records
      → (p : PlatformDb) × Consumes env k c s.platform p
        × (r.1.platform.tokens ≡ p.tokens)
        × (r.1.platform.approvals ≡ p.approvals)
  pub written : Written env i k.business c key s r

consume_task_write-ok :
    (env : Environment) (i : ℕ) (k : Command ExecuteTaskAction) (c : RequestContext)
    (s : InspectionDb) {p : Unit {0} × InspectionDb}
    → consume_task_write env i k c s ≡ ok p
    → (p.1 ≡ record s { platform = p.1.platform }) × (k.business.action ≡ submit_records → p.1 ≡ s)
unfolding consume_task_write
consume_task_write-ok env i k c s {p} h =
    elim (Bool-cases
      (action_eq k.business.action start || action_eq k.business.action add_record)) [
        | inr b ↦ (ground arith, λ e. ground arith)
        | inl b ↦ (
          (consume_agent_write-ok env.fence c k.confirmation (task_operation k.business)
              (env.canonical_hash (task_action_payload i k.business)) env.now s {p = p}
              (ground arith)).0,
          λ e. ground arith,
        )
      ]

-- The tables before the handler and the confirmation are those of the call.
rebase :
    {env : Environment} {i : ℕ} {k : ExecuteTaskAction} {c : RequestContext} {key : Text}
    {s s1 s2 : InspectionDb} {r : InspectionTask × InspectionDb}
    → Untouched s1 s2
    → s1 ≡ record s { platform = s1.platform }
    → Written env i k c key s2 r
    → Written env i k c key s r
rebase {r} u same w = record {
  tasks = ground (arith, w.tasks, u.same_tasks);
  only = ground (arith, w.only, u.same_tasks);
  same_events = ground (arith, w.same_events, u.same_events);
  response = ground (arith, w.response, u.same_responses);
}

-- An action on a task that completes found the task at the expected version and visible to an actor
-- with the authority for it. It returns the task one version on, not further back, with the plan it
-- had; after a submission the tokens and the approvals are those that consuming the confirmation of
-- its note, kind and point leaves. One row was written, and the response is kept under the key.
pub run_task_action-Done :
    (env : Environment) (i : ℕ) (k : Command ExecuteTaskAction) (c : RequestContext) (key : Text)
    (s : InspectionDb) {r : InspectionTask × InspectionDb}
    → run_task_action env i k c key s ≡ ok r
    → (t : InspectionTask) × Done env i k c key s t r
unfolding run_task_action
run_task_action-Done env i k c key s {r} h = elim (Result-cases (get_authorized_task i c s)) [
  | inr (x, d) ↦ ground arith
  | inl ((t, s0), d) ↦
      let (same, found, seen) = get_authorized_task-ok i c s {r = (t, s0)} d in
      elim (Bool-cases (t.version == k.business.expected_version)) [
        | inr b ↦ ground arith
        | inl b ↦ elim (Result-cases (consume_task_write env i k c s)) [
          | inr (x, f) ↦ ground arith
          | inl ((u, s1), f) ↦ elim (Result-cases (apply_task_action env t k c s1)) [
            | inr (x, g) ↦ ground arith
            | inl (((reason, t'), s2), g) ↦
                let handled = apply_task_action-Handled env t k c s1 {r = ((reason, t'), s2)} g in
                let (kept, still) = consume_task_write-ok env i k c s {p = (u, s1)} f in
                let (same_task, tokens, approvals, written) =
                  finish_task_action-Written env i k.business c key t.status reason t' s2 {r = r}
                    (ground arith) in
                let wrote = rebase handled.untouched kept written in
                (
                  t,
                  record {
                    found = found;
                    seen = seen;
                    expected = ground arith;
                    authority = handled.authority;
                    same_plan = subst (SamePlan t) (sym same_task) handled.same_plan;
                    forward = ground (arith, handled.forward);
                    confirmed = λ e. (
                      s2.platform,
                      subst (λ (x : InspectionDb). Consumes env k c x.platform s2.platform)
                          (still e) (handled.confirmed e),
                      tokens,
                      approvals,
                    );
                    written = wrote;
                  },
                )
          ]
        ]
      ]
]

-- A call that succeeds returned a kept response and changed nothing, or ran the action.
pub execute_task_action-ok :
    (env : Environment) (i : ℕ) (k : Command ExecuteTaskAction) (c : RequestContext) (key : Text)
    (s : InspectionDb) {r : InspectionTask × InspectionDb}
    → execute_task_action env i k c key s ≡ ok r
    → (r.1 ≡ s) ⊎ (run_task_action env i k c key s ≡ ok r)
unfolding execute_task_action
execute_task_action-ok env i k c key s {r} h = elim (Bool-cases (is_idempotency_key key)) [
  | inr b ↦ ground arith
  | inl b ↦
      or_replay-ok task_of_response c (task_operation k.business) key
        (env.canonical_hash (task_action_payload i k.business)) (run_task_action env i k c key) s
        (ground arith)
]
