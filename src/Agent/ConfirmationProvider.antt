-- ===== src/Agent/ConfirmationProvider.antt =====
-- src/property_agent/agent/application/confirmation_provider.py: what happens between the user's
-- confirmation and the business write. The action and the digest of its parameters, which
-- `derive_confirmation_params` computes from the graph's state, are arguments.
pub mod Confirmed
use property_community_agent.Base.{
  ℕ, String, Bool, true, false, Option, none, some, if◌then◌else◌, str_eq, Text, Result, ok, err,
}
use property_community_agent.Platform.Approval.{
  Approval, Approvals, ApprovalError, PendingRequest, default_approval_ttl_minutes, create_pending,
  approve,
}
use property_community_agent.Platform.Confirmation.{Tokens, generate_token}

-- What one turn confirms, with the fresh token and identifier.
pub record Confirmation : Type 0 where
  pub conversation_id : String
  pub actor_id : ℕ
  pub action : String
  pub params_hash : ℕ
  pub new_token : Text
  pub new_id : ℕ

-- The tables that the two services commit to.
pub record ConfirmationTables : Type 0 where
  pub tokens : Tokens
  pub approvals : Approvals

abbrev pub pending_request : Confirmation → PendingRequest
pending_request q = record {
  new_id = q.new_id;
  conversation_id = q.conversation_id;
  actor_id = q.actor_id;
  action = q.action;
  params_hash = q.params_hash;
}

abbrev pub after_approve :
    Confirmation
    → ℕ
    → Tokens
    → Result ApprovalError Approval × Approvals
    → Result ApprovalError (Text × Option ℕ) × ConfirmationTables
after_approve q i tokens (ok _, t) =
    (ok (q.new_token, some i), record { tokens = tokens; approvals = t })
after_approve q i tokens (err e, t) = (err e, record { tokens = tokens; approvals = t })

abbrev pub approve_created :
    Confirmation
    → ℕ
    → Tokens
    → Approval × Approvals
    → Result ApprovalError (Text × Option ℕ) × ConfirmationTables
approve_created q now tokens (a, t) = after_approve q a.id tokens (approve a.id q.actor_id now t)

-- `prepare_confirmation`: the token and the approval that the turn goes on with, and the tables. Each
-- of the three steps commits on its own, so an exception undoes none of those before it.
unfoldable pub prepare_confirmation :
    Confirmation
    → ℕ
    → ConfirmationTables
    → Result ApprovalError (Text × Option ℕ) × ConfirmationTables
prepare_confirmation q now s =
    let tokens = generate_token q.new_token q.actor_id q.action q.params_hash now s.tokens in
    if str_eq q.conversation_id ""
    then (ok (q.new_token, none), record s { tokens = tokens })
    else approve_created q now tokens
        (create_pending (λ t. t) default_approval_ttl_minutes now (pending_request q) s.approvals)
