-- ===== src/Repair/Service/Execute/Replays.antt =====
-- A repeated request of `execute_action` of repair/application/service.py.
use property_community_agent.Base.{
  ℕ, ◌≡◌, ◌⊎◌, Bool-cases, inl, inr, Text, str_append, ◌==◌, if◌then◌else◌, ok, err, arith,
}
use property_community_agent.Repair.Enums.{action_value}
use property_community_agent.Repair.Errors.{idempotency_conflict}
use property_community_agent.Repair.WorkOrder.{WorkOrder}
use property_community_agent.Repair.Commands.{RequestContext, ExecuteActionCommand}
use property_community_agent.Repair.Repository.{RepairDb}
use property_community_agent.Repair.Service.{Environment, action_payload, is_idempotency_key}
use property_community_agent.Repair.Service.Responses.{replay_or-ok, replay_or_again}
use property_community_agent.Repair.Service.Execute.{run_action, execute_action}
use property_community_agent.Repair.Service.Execute.Effects.{run_action-Recorded}

-- After an action has succeeded, a request of the same actor with the same key and action gets the
-- same result and changes nothing, if its parameters hash to the same number; if not, it is refused
-- as a conflict of keys.
pub execute_action_again :
    (env env2 : Environment) (i i2 : ℕ) (k k2 : ExecuteActionCommand) (c c2 : RequestContext)
    (key : Text) (s : RepairDb) {r : WorkOrder × RepairDb}
    → execute_action env i k c key s ≡ ok r
    → c2.actor_id ≡ c.actor_id
    → k2.action ≡ k.action
    → execute_action env2 i2 k2 c2 key r.1 ≡ (
        if env.canonical_hash (action_payload i k) == env2.canonical_hash (action_payload i2 k2)
        then ok r
        else err idempotency_conflict)
unfolding execute_action
execute_action_again env env2 i i2 k k2 c c2 key s {r} h same_actor same_action =
    elim (Bool-cases (is_idempotency_key key)) [
      | inr b ↦ ground arith
      | inl b ↦ ground (
        arith,
        replay_or_again c c2 (str_append "WORK_ORDER_" (action_value k.action))
            (str_append "WORK_ORDER_" (action_value k2.action)) key
            (env.canonical_hash (action_payload i k)) (env2.canonical_hash (action_payload i2 k2))
            (run_action env i k c key) (run_action env2 i2 k2 c2 key) s {r = r} same_actor
            (ground arith)
            (λ ran.
              let (_, _, _, _, _, recorded) = run_action-Recorded env i k c key s {r = r} ran in
              (s.idempotency, recorded.response)),
      )
    ]

-- A call that succeeds returned a kept response and changed nothing, or ran the action.
pub execute_action-ok :
    (env : Environment) (i : ℕ) (k : ExecuteActionCommand) (c : RequestContext) (key : Text)
    (s : RepairDb) {r : WorkOrder × RepairDb}
    → execute_action env i k c key s ≡ ok r
    → (r.1 ≡ s) ⊎ (run_action env i k c key s ≡ ok r)
unfolding execute_action
execute_action-ok env i k c key s {r} h = elim (Bool-cases (is_idempotency_key key)) [
  | inr b ↦ ground arith
  | inl b ↦
      replay_or-ok c (str_append "WORK_ORDER_" (action_value k.action)) key
        (env.canonical_hash (action_payload i k)) (run_action env i k c key) s (ground arith)
]
