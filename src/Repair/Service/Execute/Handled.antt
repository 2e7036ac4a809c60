-- ===== src/Repair/Service/Execute/Handled.antt =====
-- What the handlers of an action in repair/application/service.py have in common.
use property_community_agent.Base.{
  ℕ, ◌+◌, ◌≡◌, refl, ◌⊎◌, inl, Option, Text, ok, arith, subst, sym, List,
}
use property_community_agent.Repair.Enums.{processing, reworking, ActionCode, record_progress}
use property_community_agent.Repair.WorkOrder.{WorkOrder, transition}
use property_community_agent.Repair.WorkOrder.Machine.{
  Edge, transition-Edge, IsValid, transition-IsValid,
}
use property_community_agent.Repair.Repository.{RepairDb, ProcessRecord}
use property_community_agent.Repair.Ports.{ensure_repair_worker}

-- The tables that a handler leaves alone: all but the process records.
pub record Untouched (s s' : RepairDb) : Type 0 where
  pub same_platform : s'.platform ≡ s.platform
  pub same_orders : s'.work_orders ≡ s.work_orders
  pub same_logs : s'.status_logs ≡ s.status_logs
  pub same_reviews : s'.reviews ≡ s.reviews
  pub same_responses : s'.idempotency ≡ s.idempotency

-- The order that the handler hands on: its identity, its version and its step.
pub record Moved (a : ActionCode) (w w' : WorkOrder) : Type 0 where
  pub same_id : w'.id ≡ w.id
  pub same_community : w'.community_id ≡ w.community_id
  pub same_review : w'.has_review ≡ w.has_review
  pub next_version : w'.version ≡ w.version + 1
  pub edge :
      Edge w.status a w'.status
      ⊎ ((a ≡ record_progress)
          × (w'.status ≡ w.status)
          × ((w.status ≡ processing) ⊎ (w.status ≡ reworking)))
  pub valid : IsValid w → IsValid w'

pub transition-Moved :
    (a : ActionCode) (now : ℕ) (w : WorkOrder) {w' : WorkOrder}
    → transition a now w ≡ ok w'
    → Moved a w w'
transition-Moved a now w {w'} h =
    let (e, k) = transition-Edge a now w h in
    record {
      same_id = k.same_id;
      same_community = k.same_community;
      same_review = k.same_review;
      next_version = k.next_version;
      edge = inl e;
      valid = λ v. transition-IsValid a now w v h;
    }

pub ensure_repair_worker-ok :
    (user community : ℕ) (s : RepairDb) {p : Unit {0} × RepairDb}
    → ensure_repair_worker user community s ≡ ok p
    → p.1 ≡ s
unfolding ensure_repair_worker
ensure_repair_worker-ok user community s h = ground arith

abbrev pub Handled :
    ActionCode → WorkOrder → RepairDb → (Option Text × WorkOrder) × RepairDb → Type 0
Handled a w s r = Moved a w r.0.1 × Untouched s r.1

pub unchanged : (s : RepairDb) → Untouched s s
unchanged s = record {
  same_platform = refl;
  same_orders = refl;
  same_logs = refl;
  same_reviews = refl;
  same_responses = refl;
}

pub handled :
    {a : ActionCode} {w w' : WorkOrder} {s s1 : RepairDb} {reason : Option Text}
    {r : (Option Text × WorkOrder) × RepairDb}
    → Moved a w w'
    → Untouched s s1
    → r ≡ ((reason, w'), s1)
    → Handled a w s r
handled {a} {w} {w'} {s} m u e = subst (Handled a w s) (sym e) (m, u)

-- A handler that adds a process record.
pub with_record :
    (s : RepairDb) (rows : List ProcessRecord) → Untouched s (record s { process_records = rows })
with_record s rows = record {
  same_platform = refl;
  same_orders = refl;
  same_logs = refl;
  same_reviews = refl;
  same_responses = refl;
}
