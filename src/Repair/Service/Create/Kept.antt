-- ===== src/Repair/Service/Create/Kept.antt =====
-- The response of an order that `create` of repair/application/service.py keeps.
use property_community_agent.Base.{
  ℕ, some, ap, found_or, ◌>>◌, ◌≡◌, ◌≢◌, inl, inr, Text, Result, ok, arith, Result-cases,
}
use property_community_agent.Repair.Enums.{high_risk}
use property_community_agent.Repair.Errors.{RepairError}
use property_community_agent.Repair.WorkOrder.{WorkOrder}
use property_community_agent.Repair.Commands.{RequestContext, CreateWorkOrderCommand}
use property_community_agent.Platform.Idempotency.{get_idempotency}
use property_community_agent.Platform.Idempotency.Replay.{get-add_idempotency}
use property_community_agent.Repair.Snapshot.{
  Response, work_order_response, snapshot, from_response, from_snapshot-snapshot,
}
use property_community_agent.Repair.Repository.{RepairDb}
use property_community_agent.Repair.Service.{Environment, key_of, idempotent_replay}
use property_community_agent.Repair.Service.Responses.{replay_or-IsReplayed}
use property_community_agent.Repair.Service.Create.{
  validate_create, check_creation, insert_order, request_hash, create_order, check_request,
  create_work_order,
}
use property_community_agent.Repair.Service.Create.Effects.{insertion-Inserted}
use property_community_agent.Repair.Service.Create.HighRisk.{high_risk_creates_no_order}
use property_community_agent.Repair.Service.Create.Orders.{is_high_risk, to_transaction}

order_run :
    (env : Environment) (k : CreateWorkOrderCommand) (c : RequestContext) (key : Text)
    (s : RepairDb) {r : WorkOrder × RepairDb}
    → create_order env k c key s ≡ ok r
    → found_or
        (idempotent_replay c "CREATE_WORK_ORDER" key (request_hash env k))
        (check_creation env k c >> insert_order env k c key)
        s
      ≡ ok r
unfolding create_order
order_run env k c key s h = h

-- The checks before the transaction read no table.
check_request_anywhere :
    (k : CreateWorkOrderCommand) (c : RequestContext) (key : Text) (s t : RepairDb)
    {p : Unit {0} × RepairDb}
    → check_request k c key s ≡ ok p
    → (q : Unit {0} × RepairDb) × (check_request k c key t ≡ ok q)
unfolding check_request validate_create
check_request_anywhere k c key s t {p} h = ((tt, t), ground arith)

create_order_kept :
    (env : Environment) (k : CreateWorkOrderCommand) (c : RequestContext) (key : Text)
    (t : RepairDb) {w : WorkOrder} (resource : ℕ) (response : Response)
    → get_idempotency (key_of c "CREATE_WORK_ORDER" key) t.idempotency
      ≡ some (request_hash env k, resource, response)
    → from_response response ≡ some w
    → create_order env k c key t ≡ ok (w, t)
unfolding create_order idempotent_replay
create_order_kept env k c key t {w} resource response kept read = ground arith

-- The response of an order is kept under the key of its creation.
abbrev pub IsOrderKept : RequestContext → Text → ℕ → WorkOrder → RepairDb → Type 0
IsOrderKept c key hash w s =
    (resource : ℕ) × (response : Response) × (get_idempotency (key_of c "CREATE_WORK_ORDER" key)
        s.idempotency
      ≡ some (hash, resource, response))
    × (from_response response ≡ some w)

-- A call that returned an order was a creation, and keeps its response.
pub create_work_order-IsOrderKept :
    (env : Environment) (k : CreateWorkOrderCommand) (c : RequestContext) (key : Text)
    (s : RepairDb) {w : WorkOrder} {t : RepairDb}
    → create_work_order env k c key s ≡ (ok w, t)
    → (k.urgency ≢ high_risk)
      × (p : Unit {0} × RepairDb) × (check_request k c key s ≡ ok p)
      × IsOrderKept c key (request_hash env k) w t
unfolding create_work_order
create_work_order-IsOrderKept env k c key s {w} {t} h =
    elim (Result-cases (check_request k c key s)) [
      | inr (x, e) ↦ ground arith
      | inl (p, e) ↦ elim (is_high_risk k.urgency) [
        | inl u ↦
            let (no_order, _, _, _) = high_risk_creates_no_order env k c key s u in
            absurd (no_order w (ap (λ (x : Result RepairError WorkOrder × RepairDb). x.0) h))
        | inr u ↦
            let started = to_transaction env k c key s e u in
            elim (Result-cases (create_order env k c key s)) [
              | inr (x, d) ↦ ground arith
              | inl (r, d) ↦
                  let same : r ≡ (w, t) = ground arith in
                  elim (replay_or-IsReplayed c "CREATE_WORK_ORDER" key (request_hash env k)
                    (check_creation env k c >> insert_order env k c key) s {r = r}
                    (order_run env k c key s d)) [
                      | inl (still, resource, response, kept, read) ↦
                          (u, p, e, (resource, response, ground arith, ground arith))
                      | inr ran ↦
                          let m = insertion-Inserted env k c key s {r = r} ran in
                          (
                            u,
                            p,
                            e,
                            (
                              r.0.id,
                              work_order_response (snapshot r.0),
                              ground (
                                arith,
                                m.response,
                                get-add_idempotency (key_of c "CREATE_WORK_ORDER" key)
                                    (request_hash env k) r.0.id (work_order_response (snapshot r.0))
                                    s.idempotency,
                              ),
                              ground (arith, from_snapshot-snapshot r.0),
                            ),
                          )
                    ]
            ]
      ]
    ]

-- A repeated creation whose response is still kept gets the order as it was created.
pub create_work_order_kept :
    (env : Environment) (k : CreateWorkOrderCommand) (c : RequestContext) (key : Text)
    (s t : RepairDb) {w : WorkOrder} {p : Unit {0} × RepairDb}
    → check_request k c key s ≡ ok p
    → k.urgency ≢ high_risk
    → IsOrderKept c key (request_hash env k) w t
    → create_work_order env k c key t ≡ (ok w, t)
create_work_order_kept env k c key s t {w} {p} e u (resource, response, kept, read) =
    let (p2, e2) = check_request_anywhere k c key s t {p = p} e in
    let again = create_order_kept env k c key t resource response kept read in
    ground (arith, to_transaction env k c key t {p = p2} e2 u)
