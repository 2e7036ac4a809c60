-- ===== src/Repair/Service/Execute/Effects.antt =====
-- What a call of `execute_action` of repair/application/service.py that succeeds has done to the
-- tables.
use property_community_agent.Base.{
  ℕ, ◌+◌, ◌≡◌, sym, subst, inl, inr, true, Option, some, [], ◌∷◌, Text, str_append, ◌==◌,
  if◌then◌else◌, length, update_where, count_where, ok, arith, Bool-cases, Result-cases,
  Option-cases, length-append,
}
use property_community_agent.Platform.Tables.{AuditLog}
use property_community_agent.Platform.Idempotency.{add_idempotency}
use property_community_agent.Repair.Enums.{ActionCode, record_progress, action_eq, action_value}
use property_community_agent.Repair.WorkOrder.{WorkOrder, is_in}
use property_community_agent.Repair.Commands.{RequestContext, ExecuteActionCommand}
use property_community_agent.Repair.Snapshot.{work_order_response, snapshot}
use property_community_agent.Repair.Repository.{RepairDb, save, is_previous, write_columns, get}
use property_community_agent.Repair.Repository.Saving.{save-ok}
use property_community_agent.Repair.Service.{
  Environment, new_log, add_audit, enqueue_action_message, action_receiver, action_payload, key_of,
  record_response, operator_role, get_authorized,
}
use property_community_agent.Repair.Service.Visibility.{get_authorized-ok}
use property_community_agent.Repair.Service.Queries.{available_actions}
use property_community_agent.Repair.Service.Handlers.{apply_action}
use property_community_agent.Repair.Service.Execute.{
  effective_action, action_audit, log_action, finish_action, run_action,
}
use property_community_agent.Repair.Service.Execute.Handled.{Untouched, Moved}
use property_community_agent.Repair.Service.Execute.Steps.{apply_action-Step}

log_action-ok :
    (k : ExecuteActionCommand) (c : RequestContext) (w : WorkOrder) (reason : Option Text)
    (w' : WorkOrder) (now : ℕ) (s : RepairDb) {p : Unit {0} × RepairDb}
    → log_action k c w reason w' now s ≡ ok p
    → (p.1 ≡ record s { status_logs = p.1.status_logs })
      × (length p.1.status_logs
          ≡ length s.status_logs + (if action_eq k.action record_progress then 0 else 1))
unfolding log_action
log_action-ok k c w reason w' now s {p} h = elim (Bool-cases (action_eq k.action record_progress)) [
  | inl b ↦ ground arith
  | inr b ↦ elim (Result-cases (operator_role c)) [
    | inr (x, e) ↦ ground arith
    | inl (role, e) ↦ (
      ground arith,
      ground (
        arith,
        length-append s.status_logs (
            new_log w' c (effective_action k.action w.status) (some w.status) role reason now ∷ []),
      ),
    )
  ]
]

-- The tables after an action: one order row overwritten, the response kept, a status log unless the
-- action was a progress record, one audit row, and the reviews as they were.
pub record Recorded (env : Environment) (i : ℕ) (k : ExecuteActionCommand) (c : RequestContext)
    (key : Text) (w' : WorkOrder) (s s' : RepairDb) : Type 0 where
  pub one_row : count_where (is_previous w') s.work_orders ≡ 1
  pub orders : s'.work_orders ≡ update_where (is_previous w') (write_columns w') s.work_orders
  pub same_reviews : s'.reviews ≡ s.reviews
  pub response :
      s'.idempotency
      ≡ add_idempotency
          (key_of c (str_append "WORK_ORDER_" (action_value k.action)) key)
          (env.canonical_hash (action_payload i k))
          w'.id
          (work_order_response (snapshot w'))
          s.idempotency
  pub logged :
      length s'.status_logs
      ≡ length s.status_logs + (if action_eq k.action record_progress then 0 else 1)
  pub audited : length s'.platform.audit_logs ≡ length s.platform.audit_logs + 1

enqueue-same :
    (env : Environment) (w : WorkOrder) (a : ActionCode) (c : RequestContext) (s : RepairDb)
    → let t = enqueue_action_message env w a c s in
      (t.work_orders ≡ s.work_orders)
      × (t.reviews ≡ s.reviews)
      × (t.idempotency ≡ s.idempotency)
      × (t.status_logs ≡ s.status_logs)
      × (t.platform.audit_logs ≡ s.platform.audit_logs)
enqueue-same env w a c s = elim (Option-cases (action_receiver w a)) [
  | inl e ↦ (ground arith, ground arith, ground arith, ground arith, ground arith)
  | inr (i, e) ↦ (ground arith, ground arith, ground arith, ground arith, ground arith)
]

finish_action-ok :
    (env : Environment) (i : ℕ) (k : ExecuteActionCommand) (c : RequestContext) (key : Text)
    (w : WorkOrder) (reason : Option Text) (w' : WorkOrder) (s : RepairDb)
    {r : WorkOrder × RepairDb}
    → finish_action env i k c key w reason w' s ≡ ok r
    → (r.0 ≡ w') × Recorded env i k c key w' s r.1
unfolding finish_action
finish_action-ok env i k c key w reason w' s {r} h =
    let s1 : RepairDb =
      record_response c (str_append "WORK_ORDER_" (action_value k.action)) key
        (env.canonical_hash (action_payload i k)) w' s in
    elim (Result-cases (log_action k c w reason w' env.now s1)) [
      | inr (x, e) ↦ ground arith
      | inl (p, e) ↦ elim (Result-cases (save w' p.1)) [
        | inr (x, f) ↦ ground arith
        | inl (q, f) ↦
            let (l, n) = log_action-ok k c w reason w' env.now s1 {p = p} e in
            let (one, saved) = save-ok w' p.1 {p = q} f in
            let row : AuditLog = action_audit w' k c reason in
            let told = enqueue-same env w' k.action c (add_audit row q.1) in
            (
              ground arith,
              record {
                one_row = ground arith;
                orders = ground arith;
                same_reviews = ground arith;
                response = ground arith;
                logged = ground arith;
                audited = ground (arith, length-append s.platform.audit_logs (row ∷ []));
              },
            )
      ]
    ]

Recorded-Untouched :
    (env : Environment) (i : ℕ) (k : ExecuteActionCommand) (c : RequestContext) (key : Text)
    (w' : WorkOrder) {s s1 s' : RepairDb}
    → Untouched s s1
    → Recorded env i k c key w' s1 s'
    → Recorded env i k c key w' s s'
Recorded-Untouched env i k c key w' {s} {s1} {s'} u r = record {
  one_row = ground arith;
  orders = ground arith;
  same_reviews = ground arith;
  response = ground arith;
  logged = ground arith;
  audited = ground arith;
}

-- An action that succeeds was among its actor's available actions for the order it found, at the
-- version that the request expected. It returns the order one step and one version on, and records
-- the step: it overwrites the row of the order, keeps the response, writes a status log except for a
-- progress record, and one audit row.
pub run_action-Recorded :
    (env : Environment) (i : ℕ) (k : ExecuteActionCommand) (c : RequestContext) (key : Text)
    (s : RepairDb) {r : WorkOrder × RepairDb}
    → run_action env i k c key s ≡ ok r
    → (w : WorkOrder) × (get i c.community_id s ≡ some w)
      × (w.version ≡ k.expected_version)
      × (is_in k.action (available_actions w c) ≡ true)
      × Moved k.action w r.0
      × Recorded env i k c key r.0 s r.1
unfolding run_action
run_action-Recorded env i k c key s {r} h = elim (Result-cases (get_authorized i c s)) [
  | inr (x, e) ↦ ground arith
  | inl ((w, s0), e) ↦ elim (Bool-cases (w.version == k.expected_version)) [
    | inr b ↦ ground arith
    | inl b ↦ elim (Result-cases (apply_action w k c env.now s)) [
      | inr (x, d) ↦ ground (arith, get_authorized-ok i c s {p = (w, s0)} e)
      | inl (((reason, w'), s1), d) ↦
          let (same, found, _) = get_authorized-ok i c s {p = (w, s0)} e in
          let ((moved, untouched), listed) =
            apply_action-Step w k c env.now s {r = ((reason, w'), s1)} d in
          let (out, recorded) =
            finish_action-ok env i k c key w reason w' s1 {r = r} (ground arith) in
          (
            w,
            found,
            ground arith,
            listed,
            subst (λ (x : WorkOrder). Moved k.action w x) (sym out) moved,
            subst (λ (x : WorkOrder). Recorded env i k c key x s r.1) (sym out)
                (Recorded-Untouched env i k c key w' untouched recorded),
          )
    ]
  ]
]
