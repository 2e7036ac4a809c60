-- ===== src/Repair/Tests.antt =====
-- The calls of WorkOrderService that write, on concrete tables.
use property_community_agent.Base.{
  ◌≡◌, ◌≢◌, refl, true, false, some, [], ◌∷◌, ◌++◌, has_content, is_space, text_eq, if◌then◌else◌,
  ◌==◌, ok, err, transact, arith,
}
use property_community_agent.Platform.ConfirmationPort.{consume_confirmation}
use property_community_agent.Platform.Confirmation.{consume_token}
use property_community_agent.Platform.Idempotency.{get_idempotency, add_idempotency}
use property_community_agent.Repair.Ports.{
  list_duty_staff, ensure_repair_worker, ensure_access, ensure_usable,
}
use property_community_agent.Repair.Enums.{closed, assign, create_review}
use property_community_agent.Repair.Errors.{idempotency_conflict}
use property_community_agent.Repair.WorkOrder.{transition, is_in, WorkOrder}
use property_community_agent.Repair.Repository.{get, save}
use property_community_agent.Repair.Service.{
  key_of, get_authorized, may_see, is_idempotency_key, idempotent_replay, operator_role,
  action_payload, review_payload,
}
use property_community_agent.Repair.Service.Create.{
  handover_replay, run_handover, write_handover, check_creation, insert_order, create_order,
  hand_over_high_risk, create_work_order,
}
use property_community_agent.Repair.Service.Handlers.{assign_order, apply_action}
use property_community_agent.Repair.Service.Execute.{
  finish_action, log_action, effective_action, run_action, execute_action,
}
use property_community_agent.Repair.Service.Execute.Conflicts.{stale_action_fails}
use property_community_agent.Repair.Service.Execute.Handled.{Moved}
use property_community_agent.Repair.Service.Execute.Effects.{Recorded, run_action-Recorded}
use property_community_agent.Repair.Service.Execute.Replays.{execute_action_again}
use property_community_agent.Repair.Service.Create.Orders.{Answered, create_work_order-Answered}
use property_community_agent.Repair.Service.Create.HighRisk.{high_risk_creates_no_order}
use property_community_agent.Repair.Service.Reviews.{run_review}
use property_community_agent.Repair.Service.Reviews.ReviewEffects.{new_review, run_review-ok}
use property_community_agent.Repair.Service.Queries.{available_actions}
use property_community_agent.Repair.Snapshot.{work_order_response, snapshot}
use property_community_agent.Repair.Service.Validity.{DbValid}
use property_community_agent.Repair.Service.Invariant.{
  ReachableFrom, start, by_create, by_action, ReachableFrom-DbValid,
}
use property_community_agent.Repair.TestData.{
  env, the_manager, the_resident, no_orders, leaking_tap, gas_leak, do_action, value_of, key2, key1,
  first_order, with_order, after_create, assigned, handed, with_closed, five_stars, reviewed,
}

no_orders-DbValid : DbValid no_orders
no_orders-DbValid = record {
  rows = tt;
  unique_ids = λ i. omega arith;
  one_review = λ i. omega arith;
  rated = tt;
}

created_and_assigned :
    ReachableFrom no_orders
      (transact (execute_action env 200 (do_action assign 1) the_manager key1) after_create).1
created_and_assigned =
    by_action (by_create start env leaking_tap the_resident key1 (refl, refl)) env 200
      (do_action assign 1) the_manager key1

ReachableFrom-DbValid_example :
    DbValid (transact (execute_action env 200 (do_action assign 1) the_manager key1) after_create).1
ReachableFrom-DbValid_example = ReachableFrom-DbValid created_and_assigned no_orders-DbValid

created :
    create_order env leaking_tap the_resident key1 no_orders
    ≡ ok (
        value_of
          (create_order env leaking_tap the_resident key1 no_orders)
          (first_order, no_orders))
unfolding create_order idempotent_replay get_idempotency check_creation ensure_access ensure_usable
    consume_confirmation has_content is_space consume_token text_eq insert_order operator_role
created = refl

runs : run_action env 200 (do_action assign 1) the_manager key1 with_order ≡ ok assigned
unfolding run_action get_authorized may_see get apply_action assign_order ensure_repair_worker
    transition finish_action log_action effective_action operator_role save
runs = refl

stale_action_fails_example :
    run_action env 200 (do_action assign 1) the_manager key2 assigned.1 ≢ ok assigned
stale_action_fails_example =
    stale_action_fails env env 200 (do_action assign 1) (do_action assign 1) the_manager the_manager
      key1 key2 with_order {r = assigned} {r2 = assigned} runs refl refl

run_action-Recorded_example :
    (w : WorkOrder) × (get 200 1 with_order ≡ some w)
    × (w.version ≡ 1)
    × (is_in assign (available_actions w the_manager) ≡ true)
    × Moved assign w assigned.0
    × Recorded env 200 (do_action assign 1) the_manager key1 assigned.0 with_order assigned.1
run_action-Recorded_example =
    run_action-Recorded env 200 (do_action assign 1) the_manager key1 with_order {r = assigned} runs

executes : execute_action env 200 (do_action assign 1) the_manager key1 with_order ≡ ok assigned
unfolding execute_action is_idempotency_key has_content is_space idempotent_replay get_idempotency
    run_action get_authorized may_see get apply_action assign_order ensure_repair_worker transition
    finish_action log_action effective_action operator_role save
executes = refl

execute_action_again_example :
    execute_action env 200 (do_action assign 1) the_manager key1 assigned.1 ≡ (
      if env.canonical_hash (action_payload 200 (do_action assign 1))
        == env.canonical_hash (action_payload 200 (do_action assign 1))
      then ok assigned
      else err idempotency_conflict)
execute_action_again_example =
    execute_action_again env env 200 200 (do_action assign 1) (do_action assign 1) the_manager
      the_manager key1 with_order {r = assigned} executes refl refl

create_work_order-Answered_example :
    Answered env leaking_tap the_resident key1 no_orders
      (create_work_order env leaking_tap the_resident key1 no_orders)
create_work_order-Answered_example =
    create_work_order-Answered env leaking_tap the_resident key1 no_orders

high_risk_creates_no_order_example :
    let r = create_work_order env gas_leak the_resident key1 no_orders in
    ((w : WorkOrder) → r.0 ≢ ok w)
    × (r.1.work_orders ≡ no_orders.work_orders)
    × (r.1.status_logs ≡ no_orders.status_logs)
    × (r.1.reviews ≡ no_orders.reviews)
high_risk_creates_no_order_example =
    high_risk_creates_no_order env gas_leak the_resident key1 no_orders refl

hands_over : hand_over_high_risk env gas_leak the_resident key1 no_orders ≡ ok handed
unfolding hand_over_high_risk run_handover handover_replay get_idempotency ensure_access
    ensure_usable consume_confirmation has_content is_space consume_token text_eq write_handover
    list_duty_staff
hands_over = refl

reviews : run_review env 200 five_stars the_resident key1 with_closed ≡ ok reviewed
unfolding run_review get_authorized may_see get
reviews = refl

run_review-ok_example :
    (w : WorkOrder) × (get 200 1 with_closed ≡ some w)
    × (w.status ≡ closed)
    × (w.has_review ≡ false)
    × (is_in create_review (available_actions w the_resident) ≡ true)
    × (reviewed.0 ≡ record w { has_review = true })
    × (reviewed.1.work_orders ≡ with_closed.work_orders)
    × (reviewed.1.reviews ≡ with_closed.reviews ++ new_review w five_stars the_resident 1000 ∷ [])
    × (reviewed.1.idempotency
        ≡ add_idempotency
            (key_of the_resident "WORK_ORDER_CREATE_REVIEW" key1)
            (env.canonical_hash (review_payload 200 five_stars))
            reviewed.0.id
            (work_order_response (snapshot reviewed.0))
            with_closed.idempotency)
run_review-ok_example =
    run_review-ok env 200 five_stars the_resident key1 with_closed {r = reviewed} reviews
