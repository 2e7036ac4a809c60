-- ===== src/Inspection/Ports/Confirmed.antt =====
-- What a confirmed write of inspection/infrastructure/shared_ports.py and agent_authority.py leaves
-- alone, and what it shows.
use property_community_agent.Base.{
  ℕ, ◌≡◌, refl, ◌⊎◌, inl, inr, Bool-cases, String, Option, Text, has_content, strip, ok, arith,
  Result-cases,
}
use property_community_agent.Platform.ConfirmationPort.{
  ExecutionSource, human, agent, FenceSetting, consume_confirmation,
}
use property_community_agent.Inspection.Commands.{RequestContext, Confirmation}
use property_community_agent.Inspection.Repository.{InspectionDb}
use property_community_agent.Inspection.Ports.{consume, token_text, consume_agent_write}

pub consume-ok :
    (f : FenceSetting) (approval_ref : Option ℕ) (token : Text) (actor : ℕ) (action : String)
    (hash now : ℕ) (s : InspectionDb) {p : Unit {0} × InspectionDb}
    → consume f approval_ref token actor action hash now s ≡ ok p
    → (consume_confirmation f approval_ref token actor action hash now s.platform
        ≡ ok (tt, p.1.platform))
      × (p.1 ≡ record s { platform = p.1.platform })
unfolding consume
consume-ok f approval_ref token actor action hash now s {p} h =
    elim (Result-cases
      (consume_confirmation f approval_ref token actor action hash now s.platform)) [
        | inl ((_, d), e) ↦ (ground arith, ground arith)
        | inr (x, e) ↦ ground arith
      ]

source_cases : (x : ExecutionSource) → (x ≡ human) ⊎ (x ≡ agent)
source_cases human = inl refl
source_cases agent = inr refl

-- A write that the agent makes has consumed an approved token, by the platform's port; one that a
-- human makes changes nothing here. No table of the package is touched.
pub consume_agent_write-ok :
    (f : FenceSetting) (c : RequestContext) (k : Confirmation) (operation : String) (hash now : ℕ)
    (s : InspectionDb) {p : Unit {0} × InspectionDb}
    → consume_agent_write f c k operation hash now s ≡ ok p
    → (p.1 ≡ record s { platform = p.1.platform })
      × (c.execution_source ≡ human → p.1 ≡ s)
      × (c.execution_source ≡ agent
          → consume_confirmation f k.approval_ref
              (strip (token_text k.confirmation_token))
              c.actor_id
              operation
              hash
              now
              s.platform
            ≡ ok (tt, p.1.platform))
unfolding consume_agent_write
consume_agent_write-ok f c k operation hash now s {p} h =
    let token = token_text k.confirmation_token in
    elim (source_cases c.execution_source) [
      | inl e ↦ (ground arith, λ d. ground arith, λ d. cc)
      | inr e ↦ elim (Bool-cases (has_content token)) [
        | inr b ↦ ground arith
        | inl b ↦
            let (done, same) =
              consume-ok f k.approval_ref (strip token) c.actor_id operation hash now s {p = p}
                (ground arith) in
            (same, λ d. cc, λ d. done)
      ]
    ]
