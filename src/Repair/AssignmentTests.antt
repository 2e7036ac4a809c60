-- ===== src/Repair/AssignmentTests.antt =====
-- The automatic assignment on an order and two workers.
use property_community_agent.Base.{ℕ, ◌≡◌, refl, true, none, some, [], ◌∷◌, select, Result}
use property_community_agent.Platform.Tables.{User}
use property_community_agent.Repair.Errors.{RepairError}
use property_community_agent.Repair.WorkOrder.{WorkOrder}
use property_community_agent.Repair.Repository.{RepairDb}
use property_community_agent.Repair.Service.{Environment, Payload, action_payload}
use property_community_agent.Repair.Service.Execute.{execute_action}
use property_community_agent.Repair.Service.Create.{create_work_order}
use property_community_agent.Repair.AutoAssignment.{
  is_eligible, select_candidate, assignment, assignment_key, dispatcher,
}
use property_community_agent.Repair.AutoAssignment.Candidates.{
  LeastLoaded, select_candidate-LeastLoaded,
}
use property_community_agent.Repair.TestData.{
  hash_of, no_orders, leaking_tap, the_resident, key1, env, platform, with_order, first_order,
  value_of,
}

abbrev worker_of : Payload → ℕ
worker_of (action_payload i k) = elim k.assignee_id [ none ↦ 0 | some a ↦ a ]
worker_of p = hash_of p

abbrev hashing_env : Environment
hashing_env = record env { canonical_hash = worker_of }

abbrev first_worker : User
first_worker = record { id = 30; community_id = 1; status = "ACTIVE" }

abbrev second_worker : User
second_worker = record { id = 31; community_id = 1; status = "ACTIVE" }

abbrev two_workers : RepairDb
two_workers = record with_order {
  platform = record platform {
    users = first_worker ∷ second_worker ∷ [];
    user_roles =
        record {
          user_id = 30;
          role = "REPAIR_WORKER";
          scope = "*";
          valid_from = 0;
          valid_until = none;
        }
        ∷ record {
          user_id = 31;
          role = "REPAIR_WORKER";
          scope = "B1";
          valid_from = 0;
          valid_until = none;
        }
        ∷ [];
  };
}

first_choice : select_candidate 1000 first_order two_workers ≡ some first_worker
unfolding select_candidate
first_choice = refl

select_candidate-LeastLoaded_example :
    (is_eligible 1000 first_order two_workers first_worker ≡ true)
    × LeastLoaded two_workers 30
        (select (is_eligible 1000 first_order two_workers) two_workers.platform.users)
select_candidate-LeastLoaded_example =
    select_candidate-LeastLoaded 1000 first_order two_workers {u = first_worker} first_choice

abbrev reported : RepairDb
reported = record no_orders {
  platform = record platform {
    users = two_workers.platform.users;
    user_roles = two_workers.platform.user_roles;
  };
}

abbrev creation : Result RepairError WorkOrder × RepairDb
creation = create_work_order hashing_env leaking_tap the_resident key1 reported

abbrev dispatched : WorkOrder × RepairDb
dispatched =
    value_of
      (execute_action hashing_env 200 (assignment first_order 30)
        (dispatcher first_order the_resident.request_id) (assignment_key first_order) creation.1)
      (first_order, creation.1)
