-- ===== src/Platform/ConfirmationPort.antt =====
-- src/property_agent/platform/application/platform_confirmation_port.py and
-- platform/infrastructure/agent_fence.py: the fence, the approval and the token, in one session.
pub mod Guarantees
use property_community_agent.Base.{
  ℕ, String, Bool, true, false, not, ◌&&◌, Option, none, some, List, leb, ◌==◌, if◌then◌else◌,
  str_eq, any, Text, has_content, Action, ◌>>=◌, ◌>>◌, pure, raise, require, Result, ok, err,
}
use property_community_agent.Platform.Approval.{Approval, Approvals, ApprovalError, consume}
use property_community_agent.Platform.Confirmation.{Tokens, TokenError, consume_token}
use property_community_agent.Platform.Tables.{RunLease, PlatformDb}

pub data ExecutionSource : Type 0 where
  human agent : ExecutionSource

-- The lease of the current turn, from the trusted request context.
pub record Lease : Type 0 where
  pub thread_id : String
  pub run_id : ℕ
  pub fence : ℕ

-- `RequestContext.current()`, as far as fencing reads it.
pub record ExecutionContext : Type 0 where
  pub execution_source : ExecutionSource
  pub agent_lease : Option Lease

pub record FenceSetting : Type 0 where
  pub enforce_fence : Bool
  pub current : Option ExecutionContext

pub data PortError : Type 0 where
  stale_agent_run : String → PortError
  confirmation_approval : ApprovalError → PortError
  confirmation_required : PortError
  confirmation_invalid : TokenError → PortError

abbrev pub lease_matches : Lease → ℕ → RunLease → Bool
lease_matches l now r =
    str_eq r.thread_id l.thread_id
    && r.owner_run_id == l.run_id
    && r.fence == l.fence
    && leb now r.lease_until

-- `assert_run_fence`: the UPDATE writes back what it reads.
unfoldable pub assert_run_fence : Lease → ℕ → Action PlatformDb PortError (Unit {0})
assert_run_fence l now s =
    require (any (lease_matches l now) s.run_leases)
      (stale_agent_run "fence check failed (expired, preempted, or mismatched)") s

abbrev fence_lease : Option Lease → ℕ → Action PlatformDb PortError (Unit {0})
fence_lease none now = raise (stale_agent_run "agent execution has no active lease")
fence_lease (some l) now = assert_run_fence l now

abbrev fence_context : Option ExecutionContext → ℕ → Action PlatformDb PortError (Unit {0})
fence_context none now =
    raise (stale_agent_run "fencing enforced but trusted execution context is missing")
fence_context (some c) now = elim c.execution_source [
  | human ↦ pure tt
  | agent ↦ fence_lease c.agent_lease now
]

-- `enforce_agent_fence`.
unfoldable pub enforce_agent_fence : FenceSetting → ℕ → Action PlatformDb PortError (Unit {0})
unfolding assert_run_fence
enforce_agent_fence f now = if f.enforce_fence then fence_context f.current now else pure tt

abbrev after_approval :
    Result ApprovalError (Approval × Approvals)
    → PlatformDb
    → Result PortError (Unit {0} × PlatformDb)
after_approval (ok (_, t)) s = ok (tt, record s { approvals = t })
after_approval (err e) s = err (confirmation_approval e)

abbrev consume_approval : Option ℕ → ℕ → String → ℕ → ℕ → Action PlatformDb PortError (Unit {0})
consume_approval none actor action hash now s = ok (tt, s)
consume_approval (some i) actor action hash now s =
    after_approval (consume i actor action hash now s.approvals) s

abbrev after_token :
    Result TokenError Tokens → PlatformDb → Result PortError (Unit {0} × PlatformDb)
after_token (ok t) s = ok (tt, record s { tokens = t })
after_token (err e) s = err (confirmation_invalid e)

abbrev consume_confirmation_token :
    Text → ℕ → String → ℕ → ℕ → Action PlatformDb PortError (Unit {0})
consume_confirmation_token token actor action hash now s =
    after_token (consume_token token actor action hash now s.tokens) s

-- `PlatformConfirmationPort.consume`. The reference of an approval is its identifier.
unfoldable pub consume_confirmation :
    FenceSetting → Option ℕ → Text → ℕ → String → ℕ → ℕ → Action PlatformDb PortError (Unit {0})
unfolding enforce_agent_fence
consume_confirmation f approval_ref token actor action hash now = do
  enforce_agent_fence f now
  consume_approval approval_ref actor action hash now
  require (has_content token) confirmation_required
  consume_confirmation_token token actor action hash now
