-- ===== src/Repair/Service/Visibility.antt =====
-- What `_get_authorized` of repair/application/service.py and `list` of the repository let through.
use property_community_agent.Base.{
  ℕ, ◌≡◌, ◌⊎◌, inl, inr, true, false, none, some, [], ◌∷◌, is_id, mem_id, ok, err, arith,
  Bool-cases, Option-cases, find, find-holds,
}
use property_community_agent.Repair.Enums.{resident, customer_service, repair_worker, manager}
use property_community_agent.Repair.Errors.{not_found}
use property_community_agent.Repair.WorkOrder.{WorkOrderModel, WorkOrder}
use property_community_agent.Repair.Commands.{RequestContext, has_any_role}
use property_community_agent.Repair.Repository.{RepairDb, get, in_community, to_domain}
use property_community_agent.Repair.Service.{read_roles, may_see, get_authorized}

-- An order that a person of these roles may see: of the own community, and then as staff of the
-- community, or as a resident of the house, or as the worker it is assigned to. A person with both
-- of the last two roles must meet both conditions.
pub record MaySee (c : RequestContext) (w : WorkOrder) : Type 0 where
  pub own_community : w.community_id ≡ c.community_id
  pub own_house :
      c.roles resident ≡ true
      → has_any_role c (customer_service ∷ manager ∷ []) ≡ false
      → mem_id w.house_id c.house_ids ≡ true
  pub own_task :
      c.roles repair_worker ≡ true
      → has_any_role c (customer_service ∷ manager ∷ []) ≡ false
      → is_id w.assignee_id c.actor_id ≡ true

pub get-found :
    (i community : ℕ) (s : RepairDb) {w : WorkOrder}
    → get i community s ≡ some w
    → (m : WorkOrderModel) × (find (in_community i community) s.work_orders ≡ some m)
      × (w ≡ to_domain s.reviews m)
      × (w.id ≡ i)
      × (w.community_id ≡ community)
unfolding get
get-found i community s {w} h =
    elim (Option-cases (find (in_community i community) s.work_orders)) [
      | inl e ↦ ground arith
      | inr (m, e) ↦
          let k = find-holds (in_community i community) s.work_orders e in
          (m, e, ground arith, ground arith, ground arith)
    ]

pub get_authorized-ok :
    (i : ℕ) (c : RequestContext) (s : RepairDb) {p : WorkOrder × RepairDb}
    → get_authorized i c s ≡ ok p
    → (p.1 ≡ s) × (get i c.community_id s ≡ some p.0) × (may_see c p.0 ≡ true)
unfolding get_authorized
get_authorized-ok i c s {p} h = elim (Option-cases (get i c.community_id s)) [
  | inl e ↦ ground arith
  | inr (w, e) ↦ elim (Bool-cases (may_see c w)) [
    | inl b ↦ (ground arith, ground arith, ground arith)
    | inr b ↦ ground arith
  ]
]

-- An order that a request gets is the stored one of that identifier and of the sender's community,
-- unchanged, and its sender has a role that may read orders and may see this one.
pub get_authorized-MaySee :
    (i : ℕ) (c : RequestContext) (s : RepairDb) {p : WorkOrder × RepairDb}
    → get_authorized i c s ≡ ok p
    → (p.1 ≡ s)
      × (p.0.id ≡ i)
      × ((m : WorkOrderModel) × (find (in_community i c.community_id) s.work_orders ≡ some m)
          × (p.0 ≡ to_domain s.reviews m))
      × (has_any_role c read_roles ≡ true)
      × MaySee c p.0
unfolding may_see get_authorized
get_authorized-MaySee i c s {p} h =
    let (e, found, b) = get_authorized-ok i c s h in
    let (m, row, same, same_id, same_community) = get-found i c.community_id s found in
    (
      e,
      same_id,
      (m, row, same),
      ground arith,
      record {
        own_community = same_community;
        own_house = λ r o. ground arith;
        own_task = λ r o. ground arith;
      },
    )

-- Someone with a role that may read orders gets the same answer for an order that they may not see
-- as for one that is not there.
pub hidden_is_missing :
    (i : ℕ) (c : RequestContext) (s : RepairDb)
    → has_any_role c read_roles ≡ true
    → ((get i c.community_id s ≡ none)
        ⊎ ((w : WorkOrder) × (get i c.community_id s ≡ some w) × (may_see c w ≡ false)))
    → get_authorized i c s ≡ err not_found
unfolding get_authorized
hidden_is_missing i c s r (inl e) = ground arith
hidden_is_missing i c s r (inr (w, e, b)) = ground arith
