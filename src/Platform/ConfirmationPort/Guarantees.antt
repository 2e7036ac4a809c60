-- ===== src/Platform/ConfirmationPort/Guarantees.antt =====
-- What a write that passed platform_confirmation_port.py rests on.
use property_community_agent.Base.{
  ℕ, ◌≤◌, ◌≡◌, refl, ◌⊎◌, inl, inr, String, Bool, true, false, Option, none, some, any, Text,
  has_content, Result, ok, err, arith, >>=-eq-ok, subst, ap, ◌∙◌, require, Bool-cases, Option-cases,
  Result-cases,
}
use property_community_agent.Platform.Approval.{
  Approval, Approvals, ApprovalError, approved, consumed, get_for_update, consume,
}
use property_community_agent.Platform.Approval.Branches.{consume-ok, consume_spent}
use property_community_agent.Platform.Confirmation.{
  ConfirmationToken, Tokens, TokenError, find_token, consume_token,
}
use property_community_agent.Platform.Confirmation.SingleUse.{consume_token-ok}
use property_community_agent.Platform.Tables.{PlatformDb}
use property_community_agent.Platform.ConfirmationPort.{
  FenceSetting, ExecutionContext, human, agent, Lease, PortError, lease_matches,
  enforce_agent_fence, consume_confirmation, ExecutionSource, consume_approval,
  confirmation_required, after_approval, after_token, consume_confirmation_token,
}

-- Fencing is off, or a person writes, or the agent's turn still holds its lease.
abbrev pub FencePassed : FenceSetting → ℕ → PlatformDb → Type 0
FencePassed f now s =
    (f.enforce_fence ≡ false)
    ⊎ ((c : ExecutionContext) × (f.current ≡ some c)
        × ((c.execution_source ≡ human)
            ⊎ ((l : Lease) × (c.agent_lease ≡ some l)
                × (any (lease_matches l now) s.run_leases ≡ true))))

ExecutionSource-cases : (x : ExecutionSource) → (x ≡ human) ⊎ (x ≡ agent)
ExecutionSource-cases human = inl refl
ExecutionSource-cases agent = inr refl

-- The fence writes nothing.
enforce_agent_fence_state :
    (f : FenceSetting) (now : ℕ) (s : PlatformDb) {p : Unit {0} × PlatformDb}
    → enforce_agent_fence f now s ≡ ok p
    → p.1 ≡ s
unfolding enforce_agent_fence
enforce_agent_fence_state f now s {p} h = ground arith

enforce_agent_fence-ok :
    (f : FenceSetting) (now : ℕ) (s : PlatformDb) {p : Unit {0} × PlatformDb}
    → enforce_agent_fence f now s ≡ ok p
    → FencePassed f now s
unfolding enforce_agent_fence
enforce_agent_fence-ok f now s {p} h = elim (Bool-cases f.enforce_fence) [
  | inr off ↦ inl off
  | inl enforced ↦ elim (Option-cases f.current) [
    | inl absent ↦ ground arith
    | inr (c, at) ↦ inr (
      c,
      at,
      elim (ExecutionSource-cases c.execution_source) [
        | inl person ↦ inl person
        | inr turn ↦ elim (Option-cases c.agent_lease) [
          | inl no_lease ↦ ground arith
          | inr (l, held) ↦ inr (l, held, ground arith)
        ]
      ],
    )
  ]
]

abbrev pub ApprovalPassed : Option ℕ → ℕ → String → ℕ → ℕ → PlatformDb → Type 0
ApprovalPassed none actor action hash now s = Unit
ApprovalPassed (some i) actor action hash now s =
    (m : Approval) × (get_for_update s.approvals i ≡ some m)
    × (m.actor_id ≡ actor)
    × (m.action ≡ action)
    × (m.params_hash ≡ hash)
    × ((m.status ≡ consumed) ⊎ ((m.status ≡ approved) × (now ≤ m.expires_at)))

abbrev pub TokenPassed : Text → ℕ → String → ℕ → ℕ → Tokens → Type 0
TokenPassed token actor action hash now t =
    (r : ConfirmationToken) × (find_token token t ≡ some r)
    × (r.consumed_at ≡ none)
    × (now ≤ r.expires_at)
    × (r.actor_id ≡ actor)
    × (r.action ≡ action)
    × (r.parameter_hash ≡ hash)

require_state :
    (b : Bool) (e : PortError) (s : PlatformDb) {p : Unit {0} × PlatformDb}
    → require b e s ≡ ok p
    → p.1 ≡ s
require_state true e s h = ground arith
require_state false e s h = cc

consume_approval-ok :
    (ref : Option ℕ) (actor : ℕ) (action : String) (hash now : ℕ) (s : PlatformDb)
    {p : Unit {0} × PlatformDb}
    → consume_approval ref actor action hash now s ≡ ok p
    → ApprovalPassed ref actor action hash now s × (p.1.tokens ≡ s.tokens)
consume_approval-ok none actor action hash now s h = (tt, ground arith)
consume_approval-ok (some i) actor action hash now s {p} h =
    go (consume i actor action hash now s.approvals) refl h
  where
    go :
        (r : Result ApprovalError (Approval × Approvals))
        → consume i actor action hash now s.approvals ≡ r
        → after_approval r s ≡ ok p
        → ApprovalPassed (some i) actor action hash now s × (p.1.tokens ≡ s.tokens)
    go (err x) e k = cc
    go (ok (a, t)) e k =
        let (m, f, b, c, d, how) = consume-ok i actor action hash now s.approvals e in
        ((m, f, b, c, d, ground arith), ground arith)

consume_confirmation_token-ok :
    (token : Text) (actor : ℕ) (action : String) (hash now : ℕ) (s : PlatformDb)
    {p : Unit {0} × PlatformDb}
    → consume_confirmation_token token actor action hash now s ≡ ok p
    → TokenPassed token actor action hash now s.tokens
consume_confirmation_token-ok token actor action hash now s {p} h =
    go (consume_token token actor action hash now s.tokens) refl h
  where
    go :
        (r : Result TokenError Tokens)
        → consume_token token actor action hash now s.tokens ≡ r
        → after_token r s ≡ ok p
        → TokenPassed token actor action hash now s.tokens
    go (err x) e k = cc
    go (ok t) e k =
        let (r, a, b, c, d, x, y, z) = consume_token-ok token actor action hash now s.tokens e in
        (r, a, b, c, d, x, y)

-- A confirmed write is fenced, has a token that is stored, unused, valid and issued to the same
-- actor for the same action and parameters, and, where it names an approval, an approval so bound
-- that is approved and valid, or already consumed.
pub consume_confirmation-ok :
    (f : FenceSetting) (ref : Option ℕ) (token : Text) (actor : ℕ) (action : String) (hash now : ℕ)
    (s : PlatformDb) {s' : PlatformDb}
    → consume_confirmation f ref token actor action hash now s ≡ ok (tt, s')
    → FencePassed f now s
      × ApprovalPassed ref actor action hash now s
      × TokenPassed token actor action hash now s.tokens
unfolding consume_confirmation
consume_confirmation-ok f ref token actor action hash now s {s'} h =
    let (p, fenced, h₁) = >>=-eq-ok (enforce_agent_fence f now) _ s h in
    let (q, approval, h₂) = >>=-eq-ok (consume_approval ref actor action hash now) _ p.1 h₁ in
    let (r, content, h₃) = >>=-eq-ok (require (has_content token) confirmation_required) _ q.1 h₂ in
    let same_start = enforce_agent_fence_state f now s fenced in
    let passed = consume_approval-ok ref actor action hash now p.1 approval in
    let same_checked = require_state (has_content token) confirmation_required q.1 content in
    (
      enforce_agent_fence-ok f now s fenced,
      subst (ApprovalPassed ref actor action hash now) same_start passed.0,
      subst (TokenPassed token actor action hash now)
          (ap (λ (x : PlatformDb). x.tokens) same_checked
            ∙ passed.1
            ∙ ap (λ (x : PlatformDb). x.tokens) same_start)
          (consume_confirmation_token-ok token actor action hash now r.1 h₃),
    )

consume_confirmation_token-approvals :
    (token : Text) (actor : ℕ) (action : String) (hash now : ℕ) (s : PlatformDb)
    {p : Unit {0} × PlatformDb}
    → consume_confirmation_token token actor action hash now s ≡ ok p
    → p.1.approvals ≡ s.approvals
consume_confirmation_token-approvals token actor action hash now s {p} h =
    elim (Result-cases (consume_token token actor action hash now s.tokens)) [
      | inl (t, e) ↦ ground arith
      | inr (x, e) ↦ ground arith
    ]

consume_approval-spent :
    (i actor : ℕ) (action : String) (hash now now2 : ℕ) (s s2 : PlatformDb)
    {p : Unit {0} × PlatformDb}
    → consume_approval (some i) actor action hash now s ≡ ok p
    → s2.approvals ≡ p.1.approvals
    → consume_approval (some i) actor action hash now2 s2 ≡ ok (tt, s2)
consume_approval-spent i actor action hash now now2 s s2 {p} h same =
    elim (Result-cases (consume i actor action hash now s.approvals)) [
      | inr (x, e) ↦ ground arith
      | inl ((a, t), e) ↦
          let (r, again) = consume_spent i actor action hash now now2 s.approvals e in
          let rows : s2.approvals ≡ t = ground arith in ground (arith, again)
    ]

-- Once a write has passed with an approval, a later write that names it, for the same actor, action and
-- parameters, fares as one that names no approval, as long as the
-- approvals are those that the first write left: with the fence on or off, at any time, even past the
-- expiry of the approval, whatever token it brings, and whether it passes or is refused.
pub consumed_approval_accepted :
    (f f2 : FenceSetting) (i actor : ℕ) (action : String) (hash now now2 : ℕ) (token token2 : Text)
    (s s2 : PlatformDb) {s1 : PlatformDb}
    → consume_confirmation f (some i) token actor action hash now s ≡ ok (tt, s1)
    → s2.approvals ≡ s1.approvals
    → consume_confirmation f2 (some i) token2 actor action hash now2 s2
      ≡ consume_confirmation f2 none token2 actor action hash now2 s2
unfolding consume_confirmation
consumed_approval_accepted f f2 i actor action hash now now2 token token2 s s2 {s1} h same =
    let (p, fenced, h₁) = >>=-eq-ok (enforce_agent_fence f now) _ s h in
    let (q, approval, h₂) = >>=-eq-ok (consume_approval (some i) actor action hash now) _ p.1 h₁ in
    let (r, content, h₃) = >>=-eq-ok (require (has_content token) confirmation_required) _ q.1 h₂ in
    let kept = consume_confirmation_token-approvals token actor action hash now r.1 h₃ in
    let checked = require_state (has_content token) confirmation_required q.1 content in
    let rows : s2.approvals ≡ q.1.approvals = ground arith in
    elim (Result-cases (enforce_agent_fence f2 now2 s2)) [
      | inr (x, e) ↦ ground arith
      | inl (u, e) ↦
          let same_start = enforce_agent_fence_state f2 now2 s2 e in
          let rows2 : u.1.approvals ≡ q.1.approvals = ground arith in
          let spent = consume_approval-spent i actor action hash now now2 p.1 u.1 approval rows2 in
          ground arith
    ]
