-- ===== src/Inspection/Tasks/Planning.antt =====
-- What a completed `create_task` of inspection/application/service.py has done.
use property_community_agent.Base.{
  ◌≡◌, ◌⊎◌, inl, inr, true, false, Bool-cases, List, [], ◌∷◌, ◌++◌, any, Text, has_content, leb,
  length, strip, ok, arith, All, Result-cases, subst,
}
use property_community_agent.Inspection.Task.{InspectionTask}
use property_community_agent.Inspection.Commands.{RequestContext, has_any_role, Command, CreateTask}
use property_community_agent.Inspection.Snapshot.{task_of_response}
use property_community_agent.Inspection.Repository.{InspectionDb}
use property_community_agent.Inspection.Ports.{consume_agent_write}
use property_community_agent.Inspection.Ports.Confirmed.{consume_agent_write-ok}
use property_community_agent.Inspection.Service.{
  Environment, create_task_payload, is_idempotency_key, key_of, operator_role,
}
use property_community_agent.Inspection.Service.Responses.{IsReplayed, or_replay-IsReplayed}
use property_community_agent.Inspection.Tasks.{
  task_create_roles, is_after, validate_create, validate_plan_conflict, new_task, log_task,
  insert_task, plan_task, create_task,
}
use property_community_agent.Inspection.Tasks.Plans.{clash, validated_no_clash}

insert_task-ok :
    (env : Environment) (k : CreateTask) (c : RequestContext) (key : Text) (s : InspectionDb)
    {r : InspectionTask × InspectionDb}
    → insert_task env k c key s ≡ ok r
    → (r.0 ≡ new_task env k c key)
      × (r.1.tasks ≡ s.tasks ++ new_task env k c key ∷ [])
      × (r.1.events ≡ s.events)
unfolding insert_task log_task
insert_task-ok env k c key s {r} h = elim (Result-cases (operator_role c)) [
  | inr (x, d) ↦ ground arith
  | inl (role, d) ↦ (ground arith, ground arith, ground arith)
]

validate_create-ok :
    (k : CreateTask) (s : InspectionDb) {p : Unit {0} × InspectionDb}
    → validate_create k s ≡ ok p
    → (p.1 ≡ s) × (any has_content k.route_points ≡ true) × (is_after k.planned_at k.due_at ≡ false)
unfolding validate_create
validate_create-ok k s {p} h = elim (Bool-cases (has_content k.title)) [
  | inr b ↦ ground arith
  | inl b ↦ elim (Bool-cases (leb (length (strip k.title)) 128)) [
    | inr d ↦ ground arith
    | inl d ↦ elim (Bool-cases (has_content k.description)) [
      | inr e ↦ ground arith
      | inl e ↦ elim (Bool-cases (any has_content k.route_points)) [
        | inr f ↦ ground arith
        | inl f ↦ (ground arith, f, ground arith)
      ]
    ]
  ]
]

-- What a new task is: the only new row, with a route and a time in order, and in conflict with no
-- task that was there.
pub record Planned (env : Environment) (k : Command CreateTask) (c : RequestContext) (key : Text)
    (s : InspectionDb) (r : InspectionTask × InspectionDb) : Type 0 where
  pub created : r.0 ≡ new_task env k.business c key
  pub inserted : r.1.tasks ≡ s.tasks ++ new_task env k.business c key ∷ []
  pub same_events : r.1.events ≡ s.events
  pub has_route : any has_content k.business.route_points ≡ true
  pub ordered : is_after k.business.planned_at k.business.due_at ≡ false
  pub no_clash : All (λ x. clash x (new_task env k.business c key) ≡ false) s.tasks

plan_task-Planned :
    (env : Environment) (k : Command CreateTask) (c : RequestContext) (key : Text)
    (s : InspectionDb) {r : InspectionTask × InspectionDb}
    → plan_task env k c key s ≡ ok r
    → Planned env k c key s r
unfolding plan_task
plan_task-Planned env k c key s {r} h =
    let hash = env.canonical_hash (create_task_payload k.business) in
    elim (Result-cases
      (consume_agent_write env.fence c k.confirmation "INSPECTION_TASK_CREATE" hash env.now s)) [
        | inr (x, d) ↦ ground arith
        | inl (p, d) ↦
            let (kept, _, _) =
              consume_agent_write-ok env.fence c k.confirmation "INSPECTION_TASK_CREATE" hash
                env.now s {p = p} d in
            elim (Result-cases (validate_create k.business p.1)) [
              | inr (x, e) ↦ ground arith
              | inl (p1, e) ↦
                  let (same, route, ordered) = validate_create-ok k.business p.1 {p = p1} e in
                  elim (Result-cases (validate_plan_conflict k.business c p1.1)) [
                    | inr (x, f) ↦ ground arith
                    | inl (p2, f) ↦
                        let (same2, free) =
                          validated_no_clash env k.business c key p1.1 {p = p2} f in
                        let (created, inserted, events) =
                          insert_task-ok env k.business c key p2.1 {r = r} (ground arith) in
                        let rows : p1.1.tasks ≡ s.tasks = ground arith in
                        record {
                          created = created;
                          inserted = ground arith;
                          same_events = ground arith;
                          has_route = route;
                          ordered = ordered;
                          no_clash =
                              subst
                                (λ (xs : List InspectionTask).
                                  All (λ x. clash x (new_task env k.business c key) ≡ false) xs)
                                rows free;
                        }
                  ]
            ]
      ]

pub create_task-Planned :
    (env : Environment) (k : Command CreateTask) (c : RequestContext) (key : Text)
    (s : InspectionDb) {r : InspectionTask × InspectionDb}
    → create_task env k c key s ≡ ok r
    → IsReplayed task_of_response
        (key_of c "INSPECTION_TASK_CREATE" key)
        (env.canonical_hash (create_task_payload k.business))
        s
        r
      ⊎ Planned env k c key s r
unfolding create_task
create_task-Planned env k c key s {r} h = elim (Bool-cases (is_idempotency_key key)) [
  | inr b ↦ ground arith
  | inl b ↦ elim (Bool-cases (has_any_role c task_create_roles)) [
    | inr d ↦ ground arith
    | inl d ↦
        let ran =
          or_replay-IsReplayed task_of_response c "INSPECTION_TASK_CREATE" key
            (env.canonical_hash (create_task_payload k.business)) (plan_task env k c key) s {r = r}
            (ground arith) in
        elim ran [ inl same ↦ inl same | inr e ↦ inr (plan_task-Planned env k c key s e) ]
  ]
]
