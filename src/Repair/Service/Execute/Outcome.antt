-- ===== src/Repair/Service/Execute/Outcome.antt =====
-- What a handler of an action has done when it succeeds.
use property_community_agent.Base.{
  ℕ, ◌≡◌, refl, inl, inr, true, Option, none, some, Text, ok, arith, Result-cases, Option-cases,
  Bool-cases, List,
}
use property_community_agent.Repair.Enums.{ActionCode, completion}
use property_community_agent.Repair.WorkOrder.{WorkOrder, transition, touch, state_actions, is_in}
use property_community_agent.Repair.Commands.{RequestContext, has_any_role, ExecuteActionCommand}
use property_community_agent.Repair.Repository.{RepairDb, ProcessRecord}
use property_community_agent.Repair.Ports.{ensure_repair_worker, ensure_usable}
use property_community_agent.Repair.Ports.Attachments.{ensure_usable-ok}
use property_community_agent.Repair.Service.{assign_roles, required_text}
use property_community_agent.Repair.Service.Handlers.{
  is_verifier, assign_order, progress_type, add_progress, complete, verify, reject_order,
  accept_order, rework_reason, add_process_record,
}
use property_community_agent.Repair.Service.Execute.Handled.{
  Moved, transition-Moved, ensure_repair_worker-ok, Handled, unchanged, handled, with_record,
}

pub accept_order-Handled :
    (w : WorkOrder) (k : ExecuteActionCommand) (c : RequestContext) (now : ℕ) (s : RepairDb)
    {r : (Option Text × WorkOrder) × RepairDb}
    → accept_order w k c now s ≡ ok r
    → Handled k.action w s r
unfolding accept_order
accept_order-Handled w k c now s {r} h = elim (Result-cases (transition k.action now w)) [
  | inl (w', e) ↦
      handled {reason = none} {r = r} (transition-Moved k.action now w e) (unchanged s)
        (ground arith)
  | inr (x, e) ↦ ground arith
]

pub reject_order-Handled :
    (w : WorkOrder) (k : ExecuteActionCommand) (c : RequestContext) (now : ℕ) (s : RepairDb)
    {r : (Option Text × WorkOrder) × RepairDb}
    → reject_order w k c now s ≡ ok r
    → Handled k.action w s r
unfolding reject_order
reject_order-Handled w k c now s {r} h =
    elim (Result-cases (required_text k.reason "A rejection reason is required.")) [
      | inl (t, d) ↦ elim (Result-cases (transition k.action now w)) [
        | inl (w', e) ↦
            handled {reason = some t} {r = r} (transition-Moved k.action now w e) (unchanged s)
              (ground arith)
        | inr (x, e) ↦ ground arith
      ]
      | inr (x, d) ↦ ground arith
    ]

pub verify-Handled :
    (w : WorkOrder) (k : ExecuteActionCommand) (c : RequestContext) (now : ℕ) (s : RepairDb)
    {r : (Option Text × WorkOrder) × RepairDb}
    → verify w k c now s ≡ ok r
    → Handled k.action w s r × (is_verifier w c ≡ true)
unfolding verify
verify-Handled w k c now s {r} h = elim (Result-cases (rework_reason k)) [
  | inl (t, d) ↦ elim (Result-cases (transition k.action now w)) [
    | inl (w', e) ↦ (
      handled {reason = t} {r = r} (transition-Moved k.action now w e) (unchanged s) (ground arith),
      ground arith,
    )
    | inr (x, e) ↦ ground arith
  ]
  | inr (x, d) ↦ ground arith
]

pub add_progress-Handled :
    (w : WorkOrder) (k : ExecuteActionCommand) (c : RequestContext) (now : ℕ) (s : RepairDb)
    {r : (Option Text × WorkOrder) × RepairDb}
    → add_progress w k c now s ≡ ok r
    → (is_in k.action (state_actions w) ≡ true)
      × (t : Text) × (rows : List ProcessRecord) × (r
          ≡ ((some t, touch now w), record s { process_records = rows }))
unfolding add_progress
add_progress-Handled w k c now s {r} h = elim (Bool-cases (is_in k.action (state_actions w))) [
  | inr b ↦ ground arith
  | inl b ↦ elim (Result-cases (progress_type k.record_type)) [
    | inr (x, d) ↦ ground arith
    | inl (type, d) ↦ elim (Result-cases (required_text k.note "A progress note is required.")) [
      | inr (x, e) ↦ ground arith
      | inl (t, e) ↦
          elim (Result-cases (ensure_usable k.attachment_ids c.actor_id c.community_id s)) [
            | inr (x, f) ↦ ground arith
            | inl (p, f) ↦ (
              b,
              t,
              (add_process_record w type t k.appointment_at k.attachment_ids c now
                  s).process_records,
              ground
                  (arith, ensure_usable-ok k.attachment_ids c.actor_id c.community_id s {p = p} f),
            )
          ]
    ]
  ]
]

pub complete-Handled :
    (w : WorkOrder) (k : ExecuteActionCommand) (c : RequestContext) (now : ℕ) (s : RepairDb)
    {r : (Option Text × WorkOrder) × RepairDb}
    → complete w k c now s ≡ ok r
    → Handled k.action w s r
unfolding complete
complete-Handled w k c now s {r} h = elim (Bool-cases (is_in k.action (state_actions w))) [
  | inr b ↦ ground arith
  | inl b ↦ elim (Result-cases (required_text k.note "A completion note is required.")) [
    | inr (x, e) ↦ ground arith
    | inl (t, e) ↦
        elim (Result-cases (ensure_usable k.attachment_ids c.actor_id c.community_id s)) [
          | inr (x, f) ↦ ground arith
          | inl (p, f) ↦ elim (Result-cases (transition k.action now w)) [
            | inr (x, g) ↦ ground arith
            | inl (w', g) ↦
                handled {reason = some t} {r = r} (transition-Moved k.action now w g)
                  (with_record s
                    (add_process_record w completion t none k.attachment_ids c now
                      s).process_records)
                  (ground (
                    arith,
                    ensure_usable-ok k.attachment_ids c.actor_id c.community_id s {p = p} f,
                  ))
          ]
        ]
  ]
]

abbrev assigned_to : WorkOrder → ℕ → WorkOrder
assigned_to w i = record w { row = record w.row { assignee_id = some i } }

from_assigned :
    (a : ActionCode) (w : WorkOrder) (i : ℕ) {w' : WorkOrder}
    → Moved a (assigned_to w i) w'
    → Moved a w w'
from_assigned a w i m = record {
  same_id = m.same_id;
  same_community = m.same_community;
  same_review = m.same_review;
  next_version = m.next_version;
  edge = m.edge;
  valid = λ v. m.valid (record {
    closed_dated = v.closed_dated;
    dated_closed = v.dated_closed;
    assigned = λ _. refl;
    reviewed_closed = v.reviewed_closed;
    positive = v.positive;
  });
}

pub assign_order-Handled :
    (w : WorkOrder) (k : ExecuteActionCommand) (c : RequestContext) (now : ℕ) (s : RepairDb)
    {r : (Option Text × WorkOrder) × RepairDb}
    → assign_order w k c now s ≡ ok r
    → Handled k.action w s r × (has_any_role c assign_roles ≡ true)
unfolding assign_order
assign_order-Handled w k c now s {r} h = elim (Bool-cases (has_any_role c assign_roles)) [
  | inr b ↦ ground arith
  | inl b ↦ elim (Option-cases k.assignee_id) [
    | inl d ↦ ground arith
    | inr (i, d) ↦ elim (Result-cases (ensure_repair_worker i c.community_id s)) [
      | inr (x, e) ↦ ground arith
      | inl (p, e) ↦ elim (Result-cases (transition k.action now (assigned_to w i))) [
        | inr (x, f) ↦ ground arith
        | inl (w', f) ↦ (
          handled {reason = none} {r = r}
              (from_assigned k.action w i (transition-Moved k.action now (assigned_to w i) f))
              (unchanged s) (ground (arith, ensure_repair_worker-ok i c.community_id s {p = p} e)),
          b,
        )
      ]
    ]
  ]
]
