-- ===== src/Repair/Service/Create/HighRisk.antt =====
-- The branch of `create` of repair/application/service.py that hands a high-risk report over.
use property_community_agent.Base.{
  ℕ, ◌≡◌, ◌≢◌, refl, ◌⊎◌, inl, inr, List, [], ◌∷◌, ◌++◌, Text, ok, err, arith, Result-cases, ◌==◌,
  if◌then◌else◌,
}
use property_community_agent.Platform.Idempotency.{IdempotencyRecord, add_idempotency}
use property_community_agent.Platform.Idempotency.Lookup.{found_or-ok, found_or_again}
use property_community_agent.Platform.Idempotency.PortLookup.{port_lookup}
use property_community_agent.Repair.Enums.{high_risk}
use property_community_agent.Repair.Errors.{idempotency_conflict}
use property_community_agent.Repair.WorkOrder.{WorkOrder}
use property_community_agent.Repair.Commands.{RequestContext, CreateWorkOrderCommand}
use property_community_agent.Repair.Snapshot.{Response, handover_response}
use property_community_agent.Repair.Repository.{RepairDb}
use property_community_agent.Repair.Ports.{ensure_access, ensure_usable, consume, list_duty_staff}
use property_community_agent.Repair.Service.{Environment, key_of, enqueue_message}
use property_community_agent.Repair.Service.Create.{
  request_hash, risk_ticket, add_ticket, notify_staff, write_handover, handover_replay,
  stored_handover, run_handover, hand_over_high_risk, check_request, create_work_order,
}
use property_community_agent.Repair.Service.Create.Effects.{guards-SameRepair}

-- What the messages of a handover leave alone.
pub record SameButMessages (s s' : RepairDb) : Type 0 where
  pub same_orders : s'.work_orders ≡ s.work_orders
  pub same_logs : s'.status_logs ≡ s.status_logs
  pub same_responses : s'.idempotency ≡ s.idempotency
  pub same_reviews : s'.reviews ≡ s.reviews
  pub same_tickets : s'.platform.handover_tickets ≡ s.platform.handover_tickets

notify_staff-SameButMessages :
    (env : Environment) (c : RequestContext) (staff : List ℕ) (s : RepairDb)
    → SameButMessages s (notify_staff env c staff s)
unfolding notify_staff
notify_staff-SameButMessages env c [] s = record {
  same_orders = refl;
  same_logs = refl;
  same_responses = refl;
  same_reviews = refl;
  same_tickets = refl;
}
notify_staff-SameButMessages env c (i ∷ staff) s =
    let rest =
      notify_staff-SameButMessages env c staff
        (enqueue_message env c "HIGH_RISK_HANDOVER" env.new_id i s) in
    record {
      same_orders = rest.same_orders;
      same_logs = rest.same_logs;
      same_responses = rest.same_responses;
      same_reviews = rest.same_reviews;
      same_tickets = rest.same_tickets;
    }

-- A handover that was made, or one that had been made.
pub record HandedOver (env : Environment) (k : CreateWorkOrderCommand) (c : RequestContext)
    (key : Text) (s : RepairDb) (r : (ℕ × ℕ) × RepairDb) : Type 0 where
  pub ticket : r.0.0 ≡ env.new_id
  pub same_orders : r.1.work_orders ≡ s.work_orders
  pub same_logs : r.1.status_logs ≡ s.status_logs
  pub same_reviews : r.1.reviews ≡ s.reviews
  pub response :
      r.1.idempotency
      ≡ add_idempotency
          (key_of c "CREATE_WORK_ORDER_HANDOVER" key)
          (request_hash env k)
          r.0.0
          (handover_response r.0.0 r.0.1)
          s.idempotency

write_handover-HandedOver :
    (env : Environment) (k : CreateWorkOrderCommand) (c : RequestContext) (key : Text)
    (s : RepairDb) {r : (ℕ × ℕ) × RepairDb}
    → write_handover env k c key s ≡ ok r
    → HandedOver env k c key s r
      × (r.1.platform.handover_tickets ≡ s.platform.handover_tickets ++ risk_ticket env c ∷ [])
unfolding write_handover
write_handover-HandedOver env k c key s {r} h =
    let s1 = add_ticket (risk_ticket env c) s in
    let m = notify_staff-SameButMessages env c (list_duty_staff c.community_id s1) s1 in
    (
      record {
        ticket = ground arith;
        same_orders = ground arith;
        same_logs = ground arith;
        same_reviews = ground arith;
        response = ground arith;
      },
      ground arith,
    )

run_handover-HandedOver :
    (env : Environment) (k : CreateWorkOrderCommand) (c : RequestContext) (key : Text)
    (s : RepairDb) {r : (ℕ × ℕ) × RepairDb}
    → run_handover env k c key s ≡ ok r
    → HandedOver env k c key s r
unfolding run_handover
run_handover-HandedOver env k c key s {r} h =
    elim (Result-cases (ensure_access c.actor_id c.community_id k.house_id s)) [
      | inr (x, f) ↦ ground arith
      | inl (q, f) ↦
          elim (Result-cases (ensure_usable k.attachment_ids c.actor_id c.community_id q.1)) [
            | inr (x, g) ↦ ground arith
            | inl (q1, g) ↦
                elim (Result-cases (
                  consume env.fence k.approval_ref k.confirmation_token c.actor_id
                    "CREATE_WORK_ORDER_HANDOVER" (request_hash env k) env.now q1.1)) [
                      | inr (x, l) ↦ ground arith
                      | inl (q2, l) ↦
                          let m =
                            guards-SameRepair env k c "CREATE_WORK_ORDER_HANDOVER" s {p = q}
                              {p1 = q1} {p2 = q2} f g l in
                          let (n, _) =
                            write_handover-HandedOver env k c key q2.1 {r = r} (ground arith) in
                          record {
                            ticket = n.ticket;
                            same_orders = ground arith;
                            same_logs = ground arith;
                            same_reviews = ground arith;
                            response = ground arith;
                          }
                    ]
          ]
    ]

abbrev responses : RepairDb → List (IdempotencyRecord Response)
responses s = s.idempotency

hand_over_high_risk-ok :
    (env : Environment) (k : CreateWorkOrderCommand) (c : RequestContext) (key : Text)
    (s : RepairDb) {r : (ℕ × ℕ) × RepairDb}
    → hand_over_high_risk env k c key s ≡ ok r
    → (r.1 ≡ s) ⊎ (run_handover env k c key s ≡ ok r)
unfolding hand_over_high_risk handover_replay
hand_over_high_risk-ok env k c key s {r} h =
    found_or-ok (port_lookup responses stored_handover idempotency_conflict)
      (key_of c "CREATE_WORK_ORDER_HANDOVER" key) (request_hash env k) (run_handover env k c key) s
      {r = r} h

-- A handover that succeeds leaves the orders alone.
pub hand_over-same_orders :
    (env : Environment) (k : CreateWorkOrderCommand) (c : RequestContext) (key : Text)
    (s : RepairDb) {r : (ℕ × ℕ) × RepairDb}
    → hand_over_high_risk env k c key s ≡ ok r
    → (r.1.work_orders ≡ s.work_orders)
      × (r.1.status_logs ≡ s.status_logs)
      × (r.1.reviews ≡ s.reviews)
hand_over-same_orders env k c key s {r} h = elim (hand_over_high_risk-ok env k c key s {r = r} h) [
  | inl same ↦ (ground arith, ground arith, ground arith)
  | inr ran ↦
      let m = run_handover-HandedOver env k c key s {r = r} ran in
      (m.same_orders, m.same_logs, m.same_reviews)
]

-- A high-risk report never becomes a work order: the call never returns one, and it adds neither an
-- order nor a status log, whether it hands over, repeats a handover or fails.
pub high_risk_creates_no_order :
    (env : Environment) (k : CreateWorkOrderCommand) (c : RequestContext) (key : Text)
    (s : RepairDb)
    → k.urgency ≡ high_risk
    → let r = create_work_order env k c key s in
      ((w : WorkOrder) → r.0 ≢ ok w)
      × (r.1.work_orders ≡ s.work_orders)
      × (r.1.status_logs ≡ s.status_logs)
      × (r.1.reviews ≡ s.reviews)
unfolding create_work_order
high_risk_creates_no_order env k c key s u = elim (Result-cases (check_request k c key s)) [
  | inr (x, e) ↦ (λ w d. ground arith, ground arith, ground arith, ground arith)
  | inl (p, e) ↦ elim (Result-cases (hand_over_high_risk env k c key s)) [
    | inr (x, f) ↦ (λ w d. ground arith, ground arith, ground arith, ground arith)
    | inl (((ticket, notified), s1), f) ↦
        let (orders, logs, reviews) =
          hand_over-same_orders env k c key s {r = ((ticket, notified), s1)} f in
        (λ w d. ground arith, ground arith, ground arith, ground arith)
  ]
]

-- A handover that is reported again by the same person with the same key answers with the same
-- ticket and number of people told and changes nothing, if the parameters hash to the same number;
-- if not, it is refused as a conflict of keys.
pub hand_over_again :
    (env env2 : Environment) (k k2 : CreateWorkOrderCommand) (c : RequestContext) (key : Text)
    (s : RepairDb) {r : (ℕ × ℕ) × RepairDb}
    → hand_over_high_risk env k c key s ≡ ok r
    → hand_over_high_risk env2 k2 c key r.1
      ≡ (if request_hash env k == request_hash env2 k2 then ok r else err idempotency_conflict)
unfolding hand_over_high_risk handover_replay
hand_over_again env env2 k k2 c key s {r} h =
    let kept = key_of c "CREATE_WORK_ORDER_HANDOVER" key in
    found_or_again (port_lookup responses stored_handover idempotency_conflict) kept
      (request_hash env k) (run_handover env k c key) s {r = r} kept (request_hash env2 k2)
      (run_handover env2 k2 c key) refl
      (λ ran.
        let m = run_handover-HandedOver env k c key s {r = r} ran in
        (r.0.0, handover_response r.0.0 r.0.1, s.idempotency, m.response, refl))
      h
