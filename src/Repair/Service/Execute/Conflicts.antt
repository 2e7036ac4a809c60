-- ===== src/Repair/Service/Execute/Conflicts.antt =====
-- Two requests for one version of a work order, in repair/application/service.py.
use property_community_agent.Base.{
  ℕ, ◌+◌, ◌≡◌, ◌≢◌, refl, true, some, Text, if◌then◌else◌, find, ok, arith, find-update_where,
}
use property_community_agent.Repair.WorkOrder.{WorkOrder}
use property_community_agent.Repair.Commands.{RequestContext, ExecuteActionCommand}
use property_community_agent.Repair.Repository.{
  RepairDb, get, in_community, is_previous, write_columns, to_domain,
}
use property_community_agent.Repair.Service.{Environment}
use property_community_agent.Repair.Service.Visibility.{get-found}
use property_community_agent.Repair.Service.Execute.{run_action}
use property_community_agent.Repair.Service.Execute.Effects.{run_action-Recorded}

-- An order that is read after an action on it has the status, the assignee and the closing time
-- that the action returned, and the version after the one that the request expected.
pub get-run_action :
    (env : Environment) (i : ℕ) (k : ExecuteActionCommand) (c : RequestContext) (key : Text)
    (s : RepairDb) {r : WorkOrder × RepairDb}
    → run_action env i k c key s ≡ ok r
    → (w : WorkOrder) × (get i c.community_id r.1 ≡ some w)
      × (w.status ≡ r.0.status)
      × (w.assignee_id ≡ r.0.assignee_id)
      × (w.closed_at ≡ r.0.closed_at)
      × (w.version ≡ k.expected_version + 1)
unfolding get
get-run_action env i k c key s {r} h =
    let (w, found, version, _, moved, recorded) = run_action-Recorded env i k c key s h in
    let (m, first, e, same_id, same_community) = get-found i c.community_id s found in
    let again : find (in_community i c.community_id) r.1.work_orders
        ≡ some (if is_previous r.0 m then write_columns r.0 m else m) =
      ground (
        arith,
        find-update_where (in_community i c.community_id) (is_previous r.0) (write_columns r.0)
            s.work_orders {m = m} (λ x. refl) first,
      ) in
    let hit : is_previous r.0 m ≡ true = ground arith in
    (to_domain r.1.reviews (write_columns r.0 m), ground arith, refl, refl, refl, ground arith)

-- After an action on an order has succeeded, another action on it that expects the same version
-- does not run, whoever in the community sends it, under whatever key, and whatever it is.
pub stale_action_fails :
    (env env2 : Environment) (i : ℕ) (k k2 : ExecuteActionCommand) (c c2 : RequestContext)
    (key key2 : Text) (s : RepairDb) {r r2 : WorkOrder × RepairDb}
    → run_action env i k c key s ≡ ok r
    → k2.expected_version ≡ k.expected_version
    → c2.community_id ≡ c.community_id
    → run_action env2 i k2 c2 key2 r.1 ≢ ok r2
stale_action_fails env env2 i k k2 c c2 key key2 s {r} {r2} h same_version same_community h2 =
    let (w, found, _, _, _, version) = get-run_action env i k c key s h in
    let (w2, found2, version2, _, _, _) = run_action-Recorded env2 i k2 c2 key2 r.1 {r = r2} h2 in
    ground arith
