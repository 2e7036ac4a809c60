-- ===== src/Repair/Service/Create/Effects.antt =====
-- What `create` of repair/application/service.py does to the table of work orders.
use property_community_agent.Base.{
  ◌>>◌, ℕ, ◌+◌, ◌≡◌, ◌⊎◌, inl, inr, Option, none, [], ◌∷◌, ◌++◌, Text, String, length, ok, arith,
  Result-cases, length-append,
}
use property_community_agent.Platform.ConfirmationPort.{FenceSetting, consume_confirmation}
use property_community_agent.Platform.Idempotency.{add_idempotency}
use property_community_agent.Repair.Enums.{create}
use property_community_agent.Repair.WorkOrder.{WorkOrder}
use property_community_agent.Repair.Commands.{RequestContext, CreateWorkOrderCommand}
use property_community_agent.Repair.Snapshot.{work_order_response, snapshot}
use property_community_agent.Repair.Repository.{RepairDb}
use property_community_agent.Repair.Ports.{ensure_access, ensure_usable, consume}
use property_community_agent.Repair.Ports.Attachments.{ensure_usable-ok}
use property_community_agent.Repair.Service.{Environment, new_log, key_of, operator_role}
use property_community_agent.Repair.Service.Responses.{replay_or-ok}
use property_community_agent.Repair.Service.Create.{
  request_hash, new_work_order, insert_order, check_creation, create_order,
}

-- The tables of the repair package stay as they are; the platform's may change.
pub record SameRepair (s s' : RepairDb) : Type 0 where
  pub same_orders : s'.work_orders ≡ s.work_orders
  pub same_logs : s'.status_logs ≡ s.status_logs
  pub same_reviews : s'.reviews ≡ s.reviews
  pub same_records : s'.process_records ≡ s.process_records
  pub same_responses : s'.idempotency ≡ s.idempotency

ensure_access-ok :
    (actor community house : ℕ) (s : RepairDb) {p : Unit {0} × RepairDb}
    → ensure_access actor community house s ≡ ok p
    → p.1 ≡ s
unfolding ensure_access
ensure_access-ok actor community house s {p} h = ground arith

consume-SameRepair :
    (f : FenceSetting) (ref : Option ℕ) (token : Text) (actor : ℕ) (action : String) (hash now : ℕ)
    (s : RepairDb) {p : Unit {0} × RepairDb}
    → consume f ref token actor action hash now s ≡ ok p
    → SameRepair s p.1
consume-SameRepair f ref token actor action hash now s {p} h =
    elim (Result-cases (consume_confirmation f ref token actor action hash now s.platform)) [
      | inr (x, e) ↦ ground arith
      | inl (q, e) ↦ record {
        same_orders = ground arith;
        same_logs = ground arith;
        same_reviews = ground arith;
        same_records = ground arith;
        same_responses = ground arith;
      }
    ]

-- The three guards of a report.
pub guards-SameRepair :
    (env : Environment) (k : CreateWorkOrderCommand) (c : RequestContext) (action : String)
    (s : RepairDb) {p p1 p2 : Unit {0} × RepairDb}
    → ensure_access c.actor_id c.community_id k.house_id s ≡ ok p
    → ensure_usable k.attachment_ids c.actor_id c.community_id p.1 ≡ ok p1
    → consume env.fence k.approval_ref k.confirmation_token c.actor_id action
        (request_hash env k)
        env.now
        p1.1
      ≡ ok p2
    → SameRepair s p2.1
guards-SameRepair env k c action s {p} {p1} {p2} e f g =
    let a = ensure_access-ok c.actor_id c.community_id k.house_id s {p = p} e in
    let (b, _, _, _) = ensure_usable-ok k.attachment_ids c.actor_id c.community_id p.1 {p = p1} f in
    let m =
      consume-SameRepair env.fence k.approval_ref k.confirmation_token c.actor_id action
        (request_hash env k) env.now p1.1 {p = p2} g in
    record {
      same_orders = ground arith;
      same_logs = ground arith;
      same_reviews = ground arith;
      same_records = ground arith;
      same_responses = ground arith;
    }

check_creation-SameRepair :
    (env : Environment) (k : CreateWorkOrderCommand) (c : RequestContext) (s : RepairDb)
    {p : Unit {0} × RepairDb}
    → check_creation env k c s ≡ ok p
    → SameRepair s p.1
unfolding check_creation
check_creation-SameRepair env k c s {p} h =
    elim (Result-cases (ensure_access c.actor_id c.community_id k.house_id s)) [
      | inr (x, e) ↦ ground arith
      | inl (q, e) ↦
          elim (Result-cases (ensure_usable k.attachment_ids c.actor_id c.community_id q.1)) [
            | inr (x, f) ↦ ground arith
            | inl (q1, f) ↦
                guards-SameRepair env k c "CREATE_WORK_ORDER" s {p = q} {p1 = q1} {p2 = p} e f
                  (ground arith)
          ]
    ]

-- A new order's row, its first status log, its response and its audit row.
pub record Inserted (env : Environment) (k : CreateWorkOrderCommand) (c : RequestContext)
    (key : Text) (s : RepairDb) (r : WorkOrder × RepairDb) : Type 0 where
  pub result : r.0 ≡ new_work_order env k c key
  pub orders : r.1.work_orders ≡ s.work_orders ++ r.0.row ∷ []
  pub same_reviews : r.1.reviews ≡ s.reviews
  pub logged : length r.1.status_logs ≡ length s.status_logs + 1
  pub response :
      r.1.idempotency
      ≡ add_idempotency
          (key_of c "CREATE_WORK_ORDER" key)
          (request_hash env k)
          r.0.id
          (work_order_response (snapshot r.0))
          s.idempotency

insert_order-Inserted :
    (env : Environment) (k : CreateWorkOrderCommand) (c : RequestContext) (key : Text)
    (s : RepairDb) {r : WorkOrder × RepairDb}
    → insert_order env k c key s ≡ ok r
    → Inserted env k c key s r
unfolding insert_order
insert_order-Inserted env k c key s {r} h = elim (Result-cases (operator_role c)) [
  | inr (x, e) ↦ ground arith
  | inl (role, e) ↦
      let log = new_log (new_work_order env k c key) c create none role none env.now in
      record {
        result = ground arith;
        orders = ground arith;
        same_reviews = ground arith;
        logged = ground (arith, length-append s.status_logs (log ∷ []));
        response = ground arith;
      }
]

-- A creation that runs inserts a new order.
pub insertion-Inserted :
    (env : Environment) (k : CreateWorkOrderCommand) (c : RequestContext) (key : Text)
    (s : RepairDb) {r : WorkOrder × RepairDb}
    → (check_creation env k c >> insert_order env k c key) s ≡ ok r
    → Inserted env k c key s r
insertion-Inserted env k c key s {r} h = elim (Result-cases (check_creation env k c s)) [
  | inr (x, f) ↦ ground arith
  | inl (p, f) ↦
      let m = check_creation-SameRepair env k c s {p = p} f in
      let n = insert_order-Inserted env k c key p.1 {r = r} (ground arith) in
      record {
        result = n.result;
        orders = ground arith;
        same_reviews = ground arith;
        logged = ground arith;
        response = ground arith;
      }
]

-- A transaction of an ordinary creation either returns the stored response and changes nothing, or
-- inserts a new order.
pub create_order-ok :
    (env : Environment) (k : CreateWorkOrderCommand) (c : RequestContext) (key : Text)
    (s : RepairDb) {r : WorkOrder × RepairDb}
    → create_order env k c key s ≡ ok r
    → (r.1 ≡ s) ⊎ Inserted env k c key s r
unfolding create_order
create_order-ok env k c key s {r} h =
    elim (replay_or-ok c "CREATE_WORK_ORDER" key (request_hash env k)
      (check_creation env k c >> insert_order env k c key) s {r = r} h) [
        | inl same ↦ inl same
        | inr ran ↦ inr (insertion-Inserted env k c key s {r = r} ran)
      ]
