-- ===== src/Inspection/TestData.antt =====
-- One community with a manager and a guard, as test data for the inspection package.
use property_community_agent.Base.{
  ℕ, ◌+◌, Bool, true, false, none, some, [], ◌∷◌, Text, chars, Result, ok, err,
}
use property_community_agent.Platform.Tables.{PlatformDb}
use property_community_agent.Platform.ConfirmationPort.{human}
use property_community_agent.Inspection.Enums.{Role, security_staff, manager, TaskAction}
use property_community_agent.Inspection.EventEnums.{
  high_risk, gas_leak, pending_review, EventAction,
}
use property_community_agent.Inspection.Task.{InspectionTask}
use property_community_agent.Inspection.Event.{SecurityEvent}
use property_community_agent.Inspection.Commands.{
  RequestContext, Confirmation, Command, CreateTask, ExecuteTaskAction, AddAiSuggestion,
  CreateEvent, ExecuteEventAction, InspectionTaskSearch, SecurityEventSearch,
}
use property_community_agent.Inspection.Repository.{InspectionDb}
use property_community_agent.Inspection.Service.{
  Environment, Payload, task_action_payload, event_action_payload,
}
use property_community_agent.Inspection.Tasks.{new_task}
use property_community_agent.Inspection.Events.{new_event}

abbrev pub hash_of : Payload → ℕ
hash_of (task_action_payload i k) = i + k.expected_version
hash_of (event_action_payload i k) = i + k.expected_version
hash_of _ = 5

abbrev pub env : Environment
env = record {
  now = 1000;
  new_id = 200;
  business_no = chars "XJ";
  message_id = λ i. 300 + i;
  ticket_id = 400;
  fence = record { enforce_fence = false; current = none };
  canonical_hash = hash_of;
  sha256_hex = λ t. t;
}

abbrev pub is_manager : Role → Bool
is_manager manager = true
is_manager _ = false

abbrev pub is_guard : Role → Bool
is_guard security_staff = true
is_guard _ = false

abbrev pub the_manager : RequestContext
the_manager = record {
  actor_id = 10;
  community_id = 1;
  roles = is_manager;
  request_id = chars "r1";
  execution_source = human;
}

abbrev pub the_guard : RequestContext
the_guard = record {
  actor_id = 30;
  community_id = 1;
  roles = is_guard;
  request_id = chars "r2";
  execution_source = human;
}

abbrev pub platform : PlatformDb
platform = record {
  approvals = [];
  tokens =
      record {
        token = chars "t";
        actor_id = 30;
        action = "SECURITY_EVENT_CREATE";
        parameter_hash = 5;
        expires_at = 5000;
        consumed_at = none;
      }
      ∷ [];
  users =
      record { id = 10; community_id = 1; status = "ACTIVE" }
      ∷ record { id = 30; community_id = 1; status = "ACTIVE" }
      ∷ [];
  user_roles =
      record { user_id = 10; role = "MANAGER"; scope = "*"; valid_from = 0; valid_until = none }
      ∷ record {
        user_id = 30;
        role = "SECURITY_GUARD";
        scope = "*";
        valid_from = 0;
        valid_until = none;
      }
      ∷ [];
  houses = [];
  house_bindings = [];
  attachments = [];
  run_leases = [];
  messages = [];
  handover_tickets = [];
  audit_logs = [];
}

abbrev pub empty : InspectionDb
empty = record {
  platform = platform;
  tasks = [];
  task_logs = [];
  task_records = [];
  events = [];
  event_logs = [];
  event_disposals = [];
  idempotency = [];
}

abbrev pub with_token : Confirmation
with_token = record { confirmation_token = some (chars "t"); approval_ref = none }

abbrev pub patrol : Command CreateTask
patrol = record {
  business = record {
    title = chars " gate ";
    description = chars "walk";
    route_points = chars "A" ∷ chars " " ∷ [];
    planned_at = some 2000;
    due_at = some 3000;
    attachment_ids = [];
  };
  confirmation = with_token;
}

abbrev pub leak : Command CreateEvent
leak = record {
  business = record {
    source_task_id = none;
    event_type = gas_leak;
    risk_level = high_risk;
    location = chars "hall";
    description = chars "gas";
    report_source = "MANUAL";
    attachment_ids = [];
  };
  confirmation = with_token;
}

abbrev pub task_step : TaskAction → ℕ → Command ExecuteTaskAction
task_step a version = record {
  business = record {
    action = a;
    expected_version = version;
    assignee_id = some 30;
    note = some (chars "note");
    record_type = none;
    point = none;
    attachment_ids = [];
    is_supplement = false;
    actual_time = none;
    supplement_reason = none;
  };
  confirmation = with_token;
}

abbrev pub event_step : EventAction → ℕ → Command ExecuteEventAction
event_step a version = record {
  business = record {
    action = a;
    expected_version = version;
    assignee_id = some 30;
    note = some (chars "note");
    attachment_ids = [];
  };
  confirmation = with_token;
}

abbrev pub crack : Command AddAiSuggestion
crack = record {
  business = record { point = chars "A"; finding = chars "crack"; severity = "LOW"; model = "m" };
  confirmation = with_token;
}

abbrev pub key1 : Text
key1 = chars "k1"

abbrev pub first_task : InspectionTask
first_task = new_task env patrol.business the_manager key1

abbrev pub with_task : InspectionDb
with_task = record empty { tasks = first_task ∷ [] }

abbrev pub first_event : SecurityEvent
first_event = new_event env leak.business the_guard key1

-- Handled, and graded by the manager.
abbrev pub graded_event : SecurityEvent
graded_event = record first_event {
  status = pending_review;
  assignee_id = some 30;
  grade_confirmed_by = some 10;
}

abbrev pub with_event : InspectionDb
with_event = record empty { events = graded_event ∷ [] }

abbrev pub any_task : InspectionTaskSearch
any_task = record { statuses = []; assigned_to_me = false; limit = 50; offset = 0 }

abbrev pub any_event : SecurityEventSearch
any_event = record {
  statuses = [];
  risk_levels = [];
  assigned_to_me = false;
  limit = 50;
  offset = 0;
}

abbrev pub value_or : {E A : Type 0} → Result E A → A → A
value_or (ok a) _ = a
value_or (err _) a = a
