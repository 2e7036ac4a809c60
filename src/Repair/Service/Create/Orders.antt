-- ===== src/Repair/Service/Create/Orders.antt =====
-- The orders that `create` of repair/application/service.py makes.
use property_community_agent.Base.{
  none, strip, ◌>>◌, ◌≡◌, ◌≢◌, refl, sym, subst, ◌⊎◌, inl, inr, [], ◌∷◌, ◌++◌, Text, Result, ok,
  err, transact, arith, Result-cases, ◌==◌, if◌then◌else◌,
}
use property_community_agent.Repair.Enums.{Urgency, normal, urgent, high_risk, pending_assignment}
use property_community_agent.Repair.Errors.{RepairError, idempotency_conflict}
use property_community_agent.Repair.WorkOrder.{WorkOrder}
use property_community_agent.Repair.Commands.{RequestContext, CreateWorkOrderCommand}
use property_community_agent.Repair.Repository.{RepairDb}
use property_community_agent.Repair.Service.{Environment, key_of}
use property_community_agent.Repair.Service.Responses.{
  IsReplayed, replay_or_again, replay_or-IsReplayed,
}
use property_community_agent.Repair.Service.Create.{
  check_creation, insert_order, request_hash, new_work_order, create_order, check_request,
  create_work_order,
}
use property_community_agent.Repair.Service.Create.Effects.{insertion-Inserted, create_order-ok}
use property_community_agent.Repair.Service.Create.HighRisk.{high_risk_creates_no_order}

-- The repair tables that matter for an order's validity are as they were.
abbrev pub NoneAdded : RepairDb → RepairDb → Type 0
NoneAdded s s' = (s'.work_orders ≡ s.work_orders) × (s'.reviews ≡ s.reviews)

abbrev pub OneAdded :
    Environment → CreateWorkOrderCommand → RequestContext → Text → RepairDb → RepairDb → Type 0
OneAdded env k c key s s' =
    (k.urgency ≢ high_risk)
    × (s'.work_orders ≡ s.work_orders ++ (new_work_order env k c key).row ∷ [])
    × (s'.reviews ≡ s.reviews)

ordinary :
    (env : Environment) (k : CreateWorkOrderCommand) (c : RequestContext) (key : Text)
    (s : RepairDb)
    → k.urgency ≢ high_risk
    → let r = transact (create_order env k c key) s in NoneAdded s r.1 ⊎ OneAdded env k c key s r.1
ordinary env k c key s u = elim (Result-cases (create_order env k c key s)) [
  | inr (x, e) ↦ inl (ground arith, ground arith)
  | inl (p, e) ↦ elim (create_order-ok env k c key s {r = p} e) [
    | inl same ↦ inl (ground arith, ground arith)
    | inr m ↦ inr (u, ground (arith, m.orders, m.result), ground (arith, m.same_reviews))
  ]
]

pub is_high_risk : (u : Urgency) → (u ≡ high_risk) ⊎ (u ≢ high_risk)
is_high_risk normal = inr (λ e. cc)
is_high_risk urgent = inr (λ e. cc)
is_high_risk high_risk = inl refl

pub to_transaction :
    (env : Environment) (k : CreateWorkOrderCommand) (c : RequestContext) (key : Text)
    (s : RepairDb) {p : Unit {0} × RepairDb}
    → check_request k c key s ≡ ok p
    → k.urgency ≢ high_risk
    → create_work_order env k c key s ≡ transact (create_order env k c key) s
unfolding create_work_order
to_transaction env k c key s {p} e u = ground arith

-- A call leaves the tables of orders and reviews alone, or adds one order.
pub create_work_order-orders :
    (env : Environment) (k : CreateWorkOrderCommand) (c : RequestContext) (key : Text)
    (s : RepairDb)
    → let r = create_work_order env k c key s in NoneAdded s r.1 ⊎ OneAdded env k c key s r.1
unfolding create_work_order
create_work_order-orders env k c key s = elim (Result-cases (check_request k c key s)) [
  | inr (x, e) ↦ inl (ground arith, ground arith)
  | inl (p, e) ↦ elim (is_high_risk k.urgency) [
    | inl u ↦
        let (_, orders, _, reviews) = high_risk_creates_no_order env k c key s u in
        inl (orders, reviews)
    | inr u ↦
        subst
          (λ (x : Result RepairError WorkOrder × RepairDb).
            NoneAdded s x.1 ⊎ OneAdded env k c key s x.1)
          (sym (to_transaction env k c key s e u)) (ordinary env k c key s u)
  ]
]

-- An order that a creation added at the end of the table: it waits for assignment, was reported by
-- this person for this house and community, and holds what was reported.
pub record Created (env : Environment) (k : CreateWorkOrderCommand) (c : RequestContext)
    (key : Text) (s : RepairDb) (r : WorkOrder × RepairDb) : Type 0 where
  pub added : r.1.work_orders ≡ s.work_orders ++ r.0.row ∷ []
  pub same_reviews : r.1.reviews ≡ s.reviews
  pub fresh_id : r.0.id ≡ env.new_id
  pub own_community : r.0.community_id ≡ c.community_id
  pub reporter : r.0.reporter_id ≡ c.actor_id
  pub house : r.0.house_id ≡ k.house_id
  pub same_category : r.0.category ≡ k.category
  pub same_urgency : r.0.urgency ≡ k.urgency
  pub place : r.0.location ≡ strip k.location
  pub report : r.0.description ≡ strip k.description
  pub same_appointment : r.0.appointment_at ≡ k.appointment_at
  pub waits : r.0.status ≡ pending_assignment
  pub unassigned : r.0.assignee_id ≡ none
  pub first_version : r.0.version ≡ 1

create_order-Created :
    (env : Environment) (k : CreateWorkOrderCommand) (c : RequestContext) (key : Text)
    (s : RepairDb) {r : WorkOrder × RepairDb}
    → create_order env k c key s ≡ ok r
    → IsReplayed (key_of c "CREATE_WORK_ORDER" key) (request_hash env k) s r
      ⊎ Created env k c key s r
unfolding create_order
create_order-Created env k c key s {r} h =
    elim (replay_or-IsReplayed c "CREATE_WORK_ORDER" key (request_hash env k)
      (check_creation env k c >> insert_order env k c key) s {r = r} h) [
        | inl replayed ↦ inl replayed
        | inr ran ↦
            let m = insertion-Inserted env k c key s {r = r} ran in
            inr (record {
              added = m.orders;
              same_reviews = m.same_reviews;
              fresh_id = ground (arith, m.result);
              own_community = ground (arith, m.result);
              reporter = ground (arith, m.result);
              house = ground (arith, m.result);
              same_category = ground (arith, m.result);
              same_urgency = ground (arith, m.result);
              place = ground (arith, m.result);
              report = ground (arith, m.result);
              same_appointment = ground (arith, m.result);
              waits = ground (arith, m.result);
              unassigned = ground (arith, m.result);
              first_version = ground (arith, m.result);
            })
      ]

-- What a call of `create` returns and leaves.
pub record Answered (env : Environment) (k : CreateWorkOrderCommand) (c : RequestContext)
    (key : Text) (s : RepairDb) (r : Result RepairError WorkOrder × RepairDb) : Type 0 where
  pub returned :
      (w : WorkOrder)
      → r.0 ≡ ok w
      → (k.urgency ≢ high_risk)
        × (IsReplayed (key_of c "CREATE_WORK_ORDER" key) (request_hash env k) s (w, r.1)
            ⊎ Created env k c key s (w, r.1))
  pub raised : (x : RepairError) → r.0 ≡ err x → NoneAdded s r.1

ordinary-Answered :
    (env : Environment) (k : CreateWorkOrderCommand) (c : RequestContext) (key : Text)
    (s : RepairDb)
    → k.urgency ≢ high_risk
    → Answered env k c key s (transact (create_order env k c key) s)
ordinary-Answered env k c key s u = elim (Result-cases (create_order env k c key s)) [
  | inr (x, e) ↦ record {
    returned = λ w d. ground arith;
    raised = λ y d. (ground arith, ground arith);
  }
  | inl (p, e) ↦
      let answer : Result RepairError WorkOrder × RepairDb = (ok p.0, p.1) in
      let same : answer ≡ transact (create_order env k c key) s = ground arith in
      subst (Answered env k c key s) same (record {
        returned = λ w d. (u, create_order-Created env k c key s (ground arith));
        raised = λ y d. cc;
      })
]

-- A call of create that returns an order is not a high-risk report, and the order is the one in the
-- response kept under the key for the same hash, with nothing changed, or the one new row at the end
-- of the table: with a fresh identifier, reported by this person for this house and community with
-- what the report says, and waiting for assignment. A call that raises adds no order and no review.
pub create_work_order-Answered :
    (env : Environment) (k : CreateWorkOrderCommand) (c : RequestContext) (key : Text)
    (s : RepairDb)
    → Answered env k c key s (create_work_order env k c key s)
unfolding create_work_order
create_work_order-Answered env k c key s = elim (Result-cases (check_request k c key s)) [
  | inr (x, e) ↦ record {
    returned = λ w d. ground arith;
    raised = λ y d. (ground arith, ground arith);
  }
  | inl (p, e) ↦ elim (is_high_risk k.urgency) [
    | inl u ↦
        let (no_order, orders, _, reviews) = high_risk_creates_no_order env k c key s u in
        record { returned = λ w d. absurd (no_order w d); raised = λ y d. (orders, reviews) }
    | inr u ↦
        subst (Answered env k c key s) (sym (to_transaction env k c key s e u))
          (ordinary-Answered env k c key s u)
  ]
]

-- A creation that is repeated by the same person with the same key gets the same order and changes
-- nothing, if the parameters hash to the same number; if not, it is refused as a conflict of keys.
pub create_order_again :
    (env env2 : Environment) (k k2 : CreateWorkOrderCommand) (c : RequestContext) (key : Text)
    (s : RepairDb) {r : WorkOrder × RepairDb}
    → create_order env k c key s ≡ ok r
    → create_order env2 k2 c key r.1
      ≡ (if request_hash env k == request_hash env2 k2 then ok r else err idempotency_conflict)
unfolding create_order
create_order_again env env2 k k2 c key s {r} h =
    replay_or_again c c "CREATE_WORK_ORDER" "CREATE_WORK_ORDER" key (request_hash env k)
      (request_hash env2 k2) (check_creation env k c >> insert_order env k c key)
      (check_creation env2 k2 c >> insert_order env2 k2 c key) s {r = r} refl refl
      (λ ran. (s.idempotency, (insertion-Inserted env k c key s {r = r} ran).response)) h
