-- ===== src/Inspection/Classification/Floor.antt =====
-- What the classification of inspection/domain/classification.py guarantees.
use property_community_agent.Base.{
  ◌≤◌, ◌≡◌, refl, ◌++◌, ◌⊎◌, inl, inr, true, ◌||◌, ltb, if◌then◌else◌, String, Option, List, [],
  ◌∷◌, Text, strip, arith, Bool-cases,
}
use property_community_agent.Inspection.EventEnums.{EventRiskLevel, low, medium, high_risk}
use property_community_agent.Inspection.Classification.{
  event_cues, has_cue, first_type, minimum_risk, classify_security_event, rank, requested_or,
  normalize_security_event,
}

abbrev gas_cues : List String
gas_cues = "燃气泄漏" ∷ "煤气泄漏" ∷ "燃气味" ∷ "煤气味" ∷ []

abbrev fire_cues : List String
fire_cues = "火情" ∷ "着火" ∷ "失火" ∷ "明火" ∷ "冒烟" ∷ []

abbrev people_cues : List String
people_cues = "有人被困" ∷ "人员受伤" ∷ "人身危险" ∷ "人员安全" ∷ "有人摔倒" ∷ []

-- The words of gas, fire and people in danger.
abbrev pub danger_cues : List String
danger_cues = gas_cues ++ (fire_cues ++ people_cues)

has_cue-append :
    (text : Text) (xs ys : List String)
    → has_cue text (xs ++ ys) ≡ (has_cue text xs || has_cue text ys)
unfolding has_cue
has_cue-append text [] ys = refl
has_cue-append text (x ∷ xs) ys = ground (arith, has_cue-append text xs ys)

high_at_top : (r : EventRiskLevel) → (if ltb 2 (rank r) then r else high_risk) ≡ high_risk
high_at_top low = refl
high_at_top medium = refl
high_at_top high_risk = refl

raised : (r m : EventRiskLevel) → rank m ≤ rank (if ltb (rank m) (rank r) then r else m)
raised r m = ground arith

-- The caller never lowers a risk: the result is the classified type, at a risk that is at least the
-- classified one, and if it is another, it is a higher one that the caller asked for.
pub risk_floor :
    (description : Text) (requested : Option String)
    → let (event_type, minimum) = classify_security_event description in
      let (result_type, risk) = normalize_security_event description requested in
      (result_type ≡ event_type)
      × (rank minimum ≤ rank risk)
      × ((risk ≡ minimum) ⊎ (risk ≡ requested_or requested minimum))
unfolding normalize_security_event
risk_floor description requested =
    let minimum = (classify_security_event description).1 in
    let asked = requested_or requested minimum in
    (
      refl,
      raised asked minimum,
      elim (Bool-cases (ltb (rank minimum) (rank asked))) [
        | inl e ↦ inr (rw e refl)
        | inr e ↦ inl (rw e refl)
      ],
    )

danger_type :
    (text : Text)
    → has_cue text danger_cues ≡ true
    → minimum_risk (first_type text event_cues) ≡ high_risk
unfolding first_type
danger_type text h = elim (Bool-cases (has_cue text gas_cues)) [
  | inl e ↦ rw e refl
  | inr e ↦ elim (Bool-cases (has_cue text fire_cues)) [
    | inl f ↦ rw (e, f) refl
    | inr f ↦ elim (Bool-cases (has_cue text people_cues)) [
      | inl g ↦ rw (e, f, g) refl
      | inr g ↦ ground (
        arith,
        has_cue-append text gas_cues (fire_cues ++ people_cues),
        has_cue-append text fire_cues people_cues,
      )
    ]
  ]
]

-- A report with a word of gas, of fire or of people in danger is of high risk, whatever risk the
-- caller asks for.
pub danger_is_high_risk :
    (description : Text) (requested : Option String)
    → has_cue (strip description) danger_cues ≡ true
    → (normalize_security_event description requested).1 ≡ high_risk
unfolding normalize_security_event classify_security_event
danger_is_high_risk description requested h =
    rw (danger_type (strip description) h) (high_at_top (requested_or requested high_risk))
