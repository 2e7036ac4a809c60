-- ===== src/Inspection/Tasks/Execute/Steps.antt =====
-- What a handler of a task's action has done when it succeeds.
use property_community_agent.Base.{
  ℕ, ◌≡◌, refl, inl, inr, false, none, some, Text, has_content, ok, arith, Result-cases,
  Option-cases, Bool-cases, subst, sym, List, [], ◌∷◌, ◌++◌,
}
use property_community_agent.Inspection.Enums.{
  TaskAction, create, assign, start, submit_records, complete, add_record,
}
use property_community_agent.Inspection.Task.{InspectionTask, transition, touch}
use property_community_agent.Inspection.Commands.{RequestContext, Command, ExecuteTaskAction}
use property_community_agent.Inspection.Repository.{InspectionDb, TaskRecord}
use property_community_agent.Inspection.Ports.{
  consume, token_text, ensure_security_staff, ensure_usable,
}
use property_community_agent.Inspection.Ports.Confirmed.{consume-ok}
use property_community_agent.Inspection.Service.{Environment, submission_payload, required_text}
use property_community_agent.Inspection.Tasks.Handlers.{
  Outcome, is_submission_type, task_record, assign_task, write_submission, submit_task_records,
  append_record, start_task, complete_task, task_handler, apply_task_action,
}
use property_community_agent.Inspection.Ports.Checks.{ensure_security_staff-ok, ensure_usable-ok}
use property_community_agent.Inspection.Tasks.Execute.Handled.{
  Handled, unchanged, with_records, by_transition,
}

module _ (env : Environment) (t : InspectionTask) (k : Command ExecuteTaskAction)
    (c : RequestContext) (s : InspectionDb) {r : Outcome × InspectionDb} where
  assign-Handled : assign_task t k.business c env.now s ≡ ok r → Handled assign env k c t s r
  unfolding assign_task
  assign-Handled h = elim (Option-cases k.business.assignee_id) [
    | inl d ↦ ground arith
    | inr (user, d) ↦ elim (Result-cases (ensure_security_staff user c.community_id s)) [
      | inr (x, f) ↦ ground arith
      | inl (p, f) ↦
          let same = ensure_security_staff-ok user c.community_id s {p = p} f in
          elim (Result-cases
            (transition k.business.action env.now (record t { assignee_id = some user }))) [
              | inr (x, g) ↦ ground arith
              | inl (t', g) ↦
                  by_transition {s1 = s} {reason = none} {r = r} k.business.action env.now g refl
                    (λ m. record {
                      same_id = m.same_id;
                      same_community = m.same_community;
                      same_points = m.same_points;
                      same_planned = m.same_planned;
                      same_due = m.same_due;
                      next_version = m.next_version;
                    })
                    (ground arith) (λ e. cc) (unchanged s) (ground arith)
            ]
    ]
  ]

  start-Handled : start_task t k.business c env.now s ≡ ok r → Handled start env k c t s r
  unfolding start_task
  start-Handled h = elim (Result-cases (transition k.business.action env.now t)) [
    | inr (x, g) ↦ ground arith
    | inl (t', g) ↦
        by_transition {s1 = s} {reason = none} {r = r} k.business.action env.now g refl (λ m. m)
          (ground arith) (λ e. cc) (unchanged s) (ground arith)
  ]

  complete-Handled : complete_task t k.business c env.now s ≡ ok r → Handled complete env k c t s r
  unfolding complete_task
  complete-Handled h = elim (Result-cases (transition k.business.action env.now t)) [
    | inr (x, g) ↦ ground arith
    | inl (t', g) ↦
        by_transition {s1 = s} {reason = none} {r = r} k.business.action env.now g refl (λ m. m)
          (ground arith) (λ e. cc) (unchanged s) (ground arith)
  ]

  append-Handled : append_record t k.business c env.now s ≡ ok r → Handled add_record env k c t s r
  unfolding append_record
  append-Handled h = elim (Option-cases k.business.record_type) [
    | inl d ↦ ground arith
    | inr (kind, d) ↦
        elim (Result-cases (required_text k.business.note "A record note is required.")) [
          | inr (x, e) ↦ ground arith
          | inl (note, e) ↦
              elim (Result-cases
                (ensure_usable k.business.attachment_ids c.actor_id c.community_id s)) [
                  | inr (x, f) ↦ ground arith
                  | inl (p, f) ↦
                      let same =
                        ensure_usable-ok k.business.attachment_ids c.actor_id c.community_id s
                          {p = p} f in
                      let rows =
                        s.task_records
                        ++ task_record t k.business c kind note k.business.is_supplement
                            k.business.actual_time k.business.supplement_reason env.now
                          ∷ [] in
                      let final : r
                          ≡ ((some note, touch env.now t), record s { task_records = rows }) =
                        ground arith in
                      subst (Handled add_record env k c t s) (sym final) (record {
                        authority = ground arith;
                        same_plan = ground arith;
                        forward = omega arith;
                        confirmed = λ x. cc;
                        untouched = with_records s rows;
                      })
                ]
        ]
  ]

write_submission-ok :
    (t : InspectionTask) (k : ExecuteTaskAction) (c : RequestContext) (now : ℕ) (s : InspectionDb)
    {r : Outcome × InspectionDb}
    → write_submission t k c now s ≡ ok r
    → (t' : InspectionTask) × (note : Text) × (rows : List TaskRecord) × (transition k.action now t
        ≡ ok t')
      × (r ≡ ((some note, t'), record s { task_records = rows }))
unfolding write_submission
write_submission-ok t k c now s {r} h = elim (Option-cases (is_submission_type k.record_type)) [
  | inl d ↦ ground arith
  | inr (kind, d) ↦ elim (Result-cases (required_text k.note "A submission note is required.")) [
    | inr (x, e) ↦ ground arith
    | inl (note, e) ↦
        elim (Result-cases (ensure_usable k.attachment_ids c.actor_id c.community_id s)) [
          | inr (x, f) ↦ ground arith
          | inl (p, f) ↦
              let same = ensure_usable-ok k.attachment_ids c.actor_id c.community_id s {p = p} f in
              let rows = s.task_records ++ task_record t k c kind note false none none now ∷ [] in
              elim (Result-cases (transition k.action now t)) [
                | inr (x, g) ↦ ground arith
                | inl (t', g) ↦ (t', note, rows, g, ground arith)
              ]
        ]
  ]
]

submit-Handled :
    (env : Environment) (t : InspectionTask) (k : Command ExecuteTaskAction) (c : RequestContext)
    (s : InspectionDb) {r : Outcome × InspectionDb}
    → submit_task_records env t k c s ≡ ok r
    → Handled submit_records env k c t s r
unfolding submit_task_records
submit-Handled env t k c s {r} h =
    let token = token_text k.confirmation.confirmation_token in
    let hash =
      env.canonical_hash
        (submission_payload k.business.note k.business.record_type k.business.point) in
    elim (Bool-cases (has_content token)) [
      | inr b ↦ ground arith
      | inl b ↦
          elim (Result-cases (
            consume env.fence k.confirmation.approval_ref token c.actor_id
              "INSPECTION_TASK_SUBMIT_RECORDS" hash env.now s)) [
                | inr (x, f) ↦ ground arith
                | inl (p, f) ↦
                    let (done, same) =
                      consume-ok env.fence k.confirmation.approval_ref token c.actor_id
                        "INSPECTION_TASK_SUBMIT_RECORDS" hash env.now s {p = p} f in
                    let (t', note, rows, g, d) =
                      write_submission-ok t k.business c env.now p.1 {r = r} (ground arith) in
                    by_transition {s1 = record p.1 { task_records = rows }} {reason = some note}
                      {r = r} k.business.action env.now g refl (λ m. m) (ground arith) (λ e. done)
                      (record {
                        same_tasks = ground arith;
                        same_logs = ground arith;
                        same_events = ground arith;
                        same_responses = ground arith;
                      })
                      d
              ]
    ]

handler-Handled :
    (a : TaskAction) (env : Environment) (t : InspectionTask) (k : Command ExecuteTaskAction)
    (c : RequestContext) (s : InspectionDb) {r : Outcome × InspectionDb}
    → task_handler a env t k c s ≡ ok r
    → Handled a env k c t s r
handler-Handled assign env t k c s h = assign-Handled env t k c s h
handler-Handled start env t k c s h = start-Handled env t k c s h
handler-Handled submit_records env t k c s h = submit-Handled env t k c s h
handler-Handled complete env t k c s h = complete-Handled env t k c s h
handler-Handled add_record env t k c s h = append-Handled env t k c s h
handler-Handled create env t k c s h = cc

-- Every handler of a task that succeeds.
pub apply_task_action-Handled :
    (env : Environment) (t : InspectionTask) (k : Command ExecuteTaskAction) (c : RequestContext)
    (s : InspectionDb) {r : Outcome × InspectionDb}
    → apply_task_action env t k c s ≡ ok r
    → Handled k.business.action env k c t s r
unfolding apply_task_action
apply_task_action-Handled env t k c s h = handler-Handled k.business.action env t k c s h
