-- ===== src/Inspection/EventEnums.antt =====
-- src/property_agent/inspection/domain/enums.py: the states, actions, types and risks of security
-- events, with their stored values. Two members are compared by their position.
use property_community_agent.Base.{
  ℕ, ◌≡◌, refl, String, Bool, Option, none, some, ◌==◌, if◌then◌else◌, str_eq,
}

pub data EventStatus : Type 0 where
  reported assigned pending_review closed : EventStatus

pub data EventAction : Type 0 where
  create assign submit_disposal grade_confirm review_pass return_event : EventAction

pub data EventRiskLevel : Type 0 where
  low medium high_risk : EventRiskLevel

pub data EventType : Type 0 where
  gas_leak fire personal_safety equipment_fault other : EventType

abbrev pub status_index : EventStatus → ℕ
status_index reported = 0
status_index assigned = 1
status_index pending_review = 2
status_index closed = 3

abbrev pub status_eq : EventStatus → EventStatus → Bool
status_eq a b = status_index a == status_index b

abbrev pub action_index : EventAction → ℕ
action_index create = 0
action_index assign = 1
action_index submit_disposal = 2
action_index grade_confirm = 3
action_index review_pass = 4
action_index return_event = 5

abbrev pub action_eq : EventAction → EventAction → Bool
action_eq a b = action_index a == action_index b

abbrev pub risk_index : EventRiskLevel → ℕ
risk_index low = 0
risk_index medium = 1
risk_index high_risk = 2

abbrev pub risk_eq : EventRiskLevel → EventRiskLevel → Bool
risk_eq a b = risk_index a == risk_index b

abbrev pub status_value : EventStatus → String
status_value reported = "REPORTED"
status_value assigned = "ASSIGNED"
status_value pending_review = "PENDING_REVIEW"
status_value closed = "CLOSED"

abbrev pub action_value : EventAction → String
action_value create = "CREATE"
action_value assign = "ASSIGN"
action_value submit_disposal = "SUBMIT_DISPOSAL"
action_value grade_confirm = "GRADE_CONFIRM"
action_value review_pass = "REVIEW_PASS"
action_value return_event = "RETURN"

abbrev pub risk_value : EventRiskLevel → String
risk_value low = "LOW"
risk_value medium = "MEDIUM"
risk_value high_risk = "HIGH_RISK"

abbrev pub event_type_value : EventType → String
event_type_value gas_leak = "GAS_LEAK"
event_type_value fire = "FIRE"
event_type_value personal_safety = "PERSONAL_SAFETY"
event_type_value equipment_fault = "EQUIPMENT_FAULT"
event_type_value other = "OTHER"

-- `EventStatus(value)`; `none` stands for the ValueError.
unfoldable pub status_of_value : String → Option EventStatus
status_of_value v =
    if str_eq v "REPORTED"
    then some reported
    else if str_eq v "ASSIGNED"
    then some assigned
    else if str_eq v "PENDING_REVIEW"
    then some pending_review
    else if str_eq v "CLOSED"
    then some closed
    else none

pub status_of_value-status_value : (x : EventStatus) → status_of_value (status_value x) ≡ some x
unfolding status_of_value
status_of_value-status_value reported = refl
status_of_value-status_value assigned = refl
status_of_value-status_value pending_review = refl
status_of_value-status_value closed = refl

-- `EventRiskLevel(value)`; `none` stands for the ValueError.
unfoldable pub risk_of_value : String → Option EventRiskLevel
risk_of_value v =
    if str_eq v "LOW"
    then some low
    else if str_eq v "MEDIUM"
    then some medium
    else if str_eq v "HIGH_RISK"
    then some high_risk
    else none

pub risk_of_value-risk_value : (x : EventRiskLevel) → risk_of_value (risk_value x) ≡ some x
unfolding risk_of_value
risk_of_value-risk_value low = refl
risk_of_value-risk_value medium = refl
risk_of_value-risk_value high_risk = refl

-- `EventType(value)`; `none` stands for the ValueError.
unfoldable pub event_type_of_value : String → Option EventType
event_type_of_value v =
    if str_eq v "GAS_LEAK"
    then some gas_leak
    else if str_eq v "FIRE"
    then some fire
    else if str_eq v "PERSONAL_SAFETY"
    then some personal_safety
    else if str_eq v "EQUIPMENT_FAULT"
    then some equipment_fault
    else if str_eq v "OTHER"
    then some other
    else none

pub event_type_of_value-event_type_value :
    (x : EventType) → event_type_of_value (event_type_value x) ≡ some x
unfolding event_type_of_value
event_type_of_value-event_type_value gas_leak = refl
event_type_of_value-event_type_value fire = refl
event_type_of_value-event_type_value personal_safety = refl
event_type_of_value-event_type_value equipment_fault = refl
event_type_of_value-event_type_value other = refl
