-- ===== src/Inspection/Classification.antt =====
-- src/property_agent/inspection/domain/classification.py: the type and the least risk of a report,
-- and the risk that the caller may raise but not lower.
pub mod Floor
use property_community_agent.Base.{
  ℕ, String, Bool, true, false, ◌&&◌, ◌||◌, Option, none, some, List, [], ◌∷◌, ltb, ◌==◌,
  if◌then◌else◌, any, Text, chars, strip,
}
use property_community_agent.Inspection.EventEnums.{
  EventRiskLevel, low, medium, high_risk, EventType, gas_leak, fire, personal_safety,
  equipment_fault, other, risk_of_value,
}

-- `text.startswith(cue)`.
unfoldable pub starts_with : Text → Text → Bool
starts_with [] text = true
starts_with (_ ∷ _) [] = false
starts_with (a ∷ cue) (b ∷ text) = a == b && starts_with cue text

-- `cue in text`.
unfoldable pub contains : Text → Text → Bool
unfolding starts_with
contains cue [] = starts_with cue []
contains cue (c ∷ text) = starts_with cue (c ∷ text) || contains cue text

-- `_EVENT_CUES`, in its order.
abbrev pub event_cues : List (EventType × List String)
event_cues =
    (gas_leak, "燃气泄漏" ∷ "煤气泄漏" ∷ "燃气味" ∷ "煤气味" ∷ [])
    ∷ (fire, "火情" ∷ "着火" ∷ "失火" ∷ "明火" ∷ "冒烟" ∷ [])
    ∷ (personal_safety, "有人被困" ∷ "人员受伤" ∷ "人身危险" ∷ "人员安全" ∷ "有人摔倒" ∷ [])
    ∷ (equipment_fault, "设备故障" ∷ "设施故障" ∷ "设备隐患" ∷ "消防隐患" ∷ "护栏损坏" ∷ "井盖破损" ∷ [])
    ∷ []

-- `any(cue in text for cue in cues)`.
unfoldable pub has_cue : Text → List String → Bool
unfolding contains
has_cue text [] = false
has_cue text (cue ∷ cues) = contains (chars cue) text || has_cue text cues

-- `next((candidate ...), EventType.OTHER)`.
unfoldable pub first_type : Text → List (EventType × List String) → EventType
unfolding has_cue
first_type text [] = other
first_type text ((candidate, cues) ∷ rest) =
    if has_cue text cues then candidate else first_type text rest

abbrev pub minimum_risk : EventType → EventRiskLevel
minimum_risk gas_leak = high_risk
minimum_risk fire = high_risk
minimum_risk personal_safety = high_risk
minimum_risk _ = medium

-- `classify_security_event`.
unfoldable pub classify_security_event : Text → EventType × EventRiskLevel
unfolding first_type
classify_security_event description =
    let event_type = first_type (strip description) event_cues in
    (event_type, minimum_risk event_type)

-- The table `rank`.
abbrev pub rank : EventRiskLevel → ℕ
rank low = 0
rank medium = 1
rank high_risk = 2

-- The risk that was asked for, or the least one where it is missing or is no risk. The argument is
-- the text in upper case.
abbrev pub requested_or : Option String → EventRiskLevel → EventRiskLevel
requested_or none minimum = minimum
requested_or (some v) minimum = elim (risk_of_value v) [ none ↦ minimum | some r ↦ r ]

-- `normalize_security_event`.
unfoldable pub normalize_security_event : Text → Option String → EventType × EventRiskLevel
unfolding classify_security_event
normalize_security_event description requested_risk =
    let (event_type, minimum) = classify_security_event description in
    let requested = requested_or requested_risk minimum in
    (event_type, if ltb (rank minimum) (rank requested) then requested else minimum)
