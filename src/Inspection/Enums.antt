-- ===== src/Inspection/Enums.antt =====
-- src/property_agent/inspection/domain/enums.py: the enumerations of tasks, with their stored values.
-- Two members are compared by their position. The states and actions of events are in EventEnums.
use property_community_agent.Base.{
  ℕ, ◌≡◌, refl, String, Bool, Option, none, some, ◌==◌, if◌then◌else◌, str_eq,
}

pub data Role : Type 0 where
  resident customer_service security_staff manager : Role

pub data TaskStatus : Type 0 where
  planned assigned in_progress submitted completed : TaskStatus

pub data TaskAction : Type 0 where
  create assign start submit_records complete add_record : TaskAction

pub data TaskRecordType : Type 0 where
  checkin point_record progress completion supplement : TaskRecordType

abbrev pub status_index : TaskStatus → ℕ
status_index planned = 0
status_index assigned = 1
status_index in_progress = 2
status_index submitted = 3
status_index completed = 4

abbrev pub status_eq : TaskStatus → TaskStatus → Bool
status_eq a b = status_index a == status_index b

abbrev pub action_index : TaskAction → ℕ
action_index create = 0
action_index assign = 1
action_index start = 2
action_index submit_records = 3
action_index complete = 4
action_index add_record = 5

abbrev pub action_eq : TaskAction → TaskAction → Bool
action_eq a b = action_index a == action_index b

abbrev pub status_value : TaskStatus → String
status_value planned = "PLANNED"
status_value assigned = "ASSIGNED"
status_value in_progress = "IN_PROGRESS"
status_value submitted = "SUBMITTED"
status_value completed = "COMPLETED"

abbrev pub action_value : TaskAction → String
action_value create = "CREATE"
action_value assign = "ASSIGN"
action_value start = "START"
action_value submit_records = "SUBMIT_RECORDS"
action_value complete = "COMPLETE"
action_value add_record = "ADD_RECORD"

abbrev pub record_type_value : TaskRecordType → String
record_type_value checkin = "CHECKIN"
record_type_value point_record = "POINT_RECORD"
record_type_value progress = "PROGRESS"
record_type_value completion = "COMPLETION"
record_type_value supplement = "SUPPLEMENT"

-- `TaskStatus(value)`; `none` stands for the ValueError.
unfoldable pub status_of_value : String → Option TaskStatus
status_of_value v =
    if str_eq v "PLANNED"
    then some planned
    else if str_eq v "ASSIGNED"
    then some assigned
    else if str_eq v "IN_PROGRESS"
    then some in_progress
    else if str_eq v "SUBMITTED"
    then some submitted
    else if str_eq v "COMPLETED"
    then some completed
    else none

pub status_of_value-status_value : (x : TaskStatus) → status_of_value (status_value x) ≡ some x
unfolding status_of_value
status_of_value-status_value planned = refl
status_of_value-status_value assigned = refl
status_of_value-status_value in_progress = refl
status_of_value-status_value submitted = refl
status_of_value-status_value completed = refl
