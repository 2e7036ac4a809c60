-- ===== src/Repair/Enums.antt =====
-- src/property_agent/repair/domain/enums.py: the enumerations and their stored values. Two members
-- are compared by their position.
use property_community_agent.Base.{
  ℕ, ◌≡◌, refl, ◌↔◌, String, Bool, Option, none, some, ◌==◌, if◌then◌else◌, str_eq, arith,
}

pub data Role : Type 0 where
  resident customer_service repair_worker manager : Role

pub data RepairCategory : Type 0 where
  water_plumbing electrical elevator other : RepairCategory

pub data Urgency : Type 0 where
  normal urgent high_risk : Urgency

pub data WorkOrderStatus : Type 0 where
  pending_assignment pending_acceptance processing : WorkOrderStatus
  pending_verification reworking closed : WorkOrderStatus

pub data ActionCode : Type 0 where
  create assign accept reject record_progress submit_completion : ActionCode
  verify_pass request_rework submit_rework_completion create_review : ActionCode

pub data ProcessRecordType : Type 0 where
  appointment arrival progress blocked completion : ProcessRecordType

abbrev pub status_index : WorkOrderStatus → ℕ
status_index pending_assignment = 0
status_index pending_acceptance = 1
status_index processing = 2
status_index pending_verification = 3
status_index reworking = 4
status_index closed = 5

abbrev pub status_eq : WorkOrderStatus → WorkOrderStatus → Bool
status_eq a b = status_index a == status_index b

abbrev pub action_index : ActionCode → ℕ
action_index create = 0
action_index assign = 1
action_index accept = 2
action_index reject = 3
action_index record_progress = 4
action_index submit_completion = 5
action_index verify_pass = 6
action_index request_rework = 7
action_index submit_rework_completion = 8
action_index create_review = 9

abbrev pub action_eq : ActionCode → ActionCode → Bool
action_eq a b = action_index a == action_index b

abbrev pub status_value : WorkOrderStatus → String
status_value pending_assignment = "PENDING_ASSIGNMENT"
status_value pending_acceptance = "PENDING_ACCEPTANCE"
status_value processing = "PROCESSING"
status_value pending_verification = "PENDING_VERIFICATION"
status_value reworking = "REWORKING"
status_value closed = "CLOSED"

abbrev pub action_value : ActionCode → String
action_value create = "CREATE"
action_value assign = "ASSIGN"
action_value accept = "ACCEPT"
action_value reject = "REJECT"
action_value record_progress = "RECORD_PROGRESS"
action_value submit_completion = "SUBMIT_COMPLETION"
action_value verify_pass = "VERIFY_PASS"
action_value request_rework = "REQUEST_REWORK"
action_value submit_rework_completion = "SUBMIT_REWORK_COMPLETION"
action_value create_review = "CREATE_REVIEW"

abbrev pub category_value : RepairCategory → String
category_value water_plumbing = "WATER_PLUMBING"
category_value electrical = "ELECTRICAL"
category_value elevator = "ELEVATOR"
category_value other = "OTHER"

abbrev pub urgency_value : Urgency → String
urgency_value normal = "NORMAL"
urgency_value urgent = "URGENT"
urgency_value high_risk = "HIGH_RISK"

-- `WorkOrderStatus(value)`; `none` stands for its ValueError.
unfoldable pub status_of_value : String → Option WorkOrderStatus
status_of_value s =
    if str_eq s "PENDING_ASSIGNMENT"
    then some pending_assignment
    else if str_eq s "PENDING_ACCEPTANCE"
    then some pending_acceptance
    else if str_eq s "PROCESSING"
    then some processing
    else if str_eq s "PENDING_VERIFICATION"
    then some pending_verification
    else if str_eq s "REWORKING"
    then some reworking
    else if str_eq s "CLOSED"
    then some closed
    else none

unfoldable pub category_of_value : String → Option RepairCategory
category_of_value s =
    if str_eq s "WATER_PLUMBING"
    then some water_plumbing
    else if str_eq s "ELECTRICAL"
    then some electrical
    else if str_eq s "ELEVATOR"
    then some elevator
    else if str_eq s "OTHER"
    then some other
    else none

unfoldable pub urgency_of_value : String → Option Urgency
urgency_of_value s =
    if str_eq s "NORMAL"
    then some normal
    else if str_eq s "URGENT"
    then some urgent
    else if str_eq s "HIGH_RISK"
    then some high_risk
    else none

pub status_eq_iff : (a b : WorkOrderStatus) → (status_eq a b ≡ Bool.true) ↔ (a ≡ b)
status_eq_iff a b = ground arith

pub status_of_value-status_value : (s : WorkOrderStatus) → status_of_value (status_value s) ≡ some s
unfolding status_of_value
status_of_value-status_value pending_assignment = refl
status_of_value-status_value pending_acceptance = refl
status_of_value-status_value processing = refl
status_of_value-status_value pending_verification = refl
status_of_value-status_value reworking = refl
status_of_value-status_value closed = refl

pub category_of_value-category_value :
    (c : RepairCategory) → category_of_value (category_value c) ≡ some c
unfolding category_of_value
category_of_value-category_value water_plumbing = refl
category_of_value-category_value electrical = refl
category_of_value-category_value elevator = refl
category_of_value-category_value other = refl

pub urgency_of_value-urgency_value : (u : Urgency) → urgency_of_value (urgency_value u) ≡ some u
unfolding urgency_of_value
urgency_of_value-urgency_value normal = refl
urgency_of_value-urgency_value urgent = refl
urgency_of_value-urgency_value high_risk = refl
