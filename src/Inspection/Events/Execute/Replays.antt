-- ===== src/Inspection/Events/Execute/Replays.antt =====
-- A repeated request of `execute_event_action` of inspection/application/service.py.
use property_community_agent.Base.{
  ℕ, ◌≡◌, ◌⊎◌, Bool-cases, inl, inr, Text, ◌==◌, if◌then◌else◌, ok, err, arith,
}
use property_community_agent.Inspection.Errors.{idempotency_conflict}
use property_community_agent.Inspection.Event.{SecurityEvent}
use property_community_agent.Inspection.Commands.{RequestContext, Command, ExecuteEventAction}
use property_community_agent.Inspection.Snapshot.{
  event_of_response, event_response, event_snapshot, event_from-event_snapshot,
}
use property_community_agent.Inspection.Repository.{InspectionDb}
use property_community_agent.Inspection.Service.{
  Environment, event_action_payload, is_idempotency_key,
}
use property_community_agent.Inspection.Service.Responses.{or_replay-ok, or_replay_again}
use property_community_agent.Inspection.Events.Execute.{
  event_operation, run_event_action, execute_event_action,
}
use property_community_agent.Inspection.Events.Execute.Effects.{run_event_action-Done}

-- After an action on an event has succeeded, a request of the same actor with the same key and action
-- gets the same result and changes nothing, if its parameters hash to the same number; if not, it is
-- refused as a conflict of keys.
pub execute_event_action_again :
    (env env2 : Environment) (i i2 : ℕ) (k k2 : Command ExecuteEventAction) (c c2 : RequestContext)
    (key : Text) (s : InspectionDb) {r : SecurityEvent × InspectionDb}
    → execute_event_action env i k c key s ≡ ok r
    → c2.actor_id ≡ c.actor_id
    → k2.business.action ≡ k.business.action
    → execute_event_action env2 i2 k2 c2 key r.1 ≡ (
        if env.canonical_hash (event_action_payload i k.business)
          == env2.canonical_hash (event_action_payload i2 k2.business)
        then ok r
        else err idempotency_conflict)
unfolding execute_event_action
execute_event_action_again env env2 i i2 k k2 c c2 key s {r} h same_actor same_action =
    elim (Bool-cases (is_idempotency_key key)) [
      | inr b ↦ ground arith
      | inl b ↦ ground (
        arith,
        or_replay_again event_of_response c c2 (event_operation k.business)
            (event_operation k2.business) key
            (env.canonical_hash (event_action_payload i k.business))
            (env2.canonical_hash (event_action_payload i2 k2.business))
            (run_event_action env i k c key) (run_event_action env2 i2 k2 c2 key) s {r = r}
            same_actor (ground arith)
            (λ ran.
              let (_, done) = run_event_action-Done env i k c key s {r = r} ran in
              (
                r.0.id,
                event_response (event_snapshot r.0),
                s.idempotency,
                done.written.response,
                event_from-event_snapshot r.0,
              )),
      )
    ]

-- A call that succeeds returned a kept response and changed nothing, or ran the action.
pub execute_event_action-ok :
    (env : Environment) (i : ℕ) (k : Command ExecuteEventAction) (c : RequestContext) (key : Text)
    (s : InspectionDb) {r : SecurityEvent × InspectionDb}
    → execute_event_action env i k c key s ≡ ok r
    → (r.1 ≡ s) ⊎ (run_event_action env i k c key s ≡ ok r)
unfolding execute_event_action
execute_event_action-ok env i k c key s {r} h = elim (Bool-cases (is_idempotency_key key)) [
  | inr b ↦ ground arith
  | inl b ↦
      or_replay-ok event_of_response c (event_operation k.business) key
        (env.canonical_hash (event_action_payload i k.business)) (run_event_action env i k c key) s
        (ground arith)
]
