-- ===== src/Platform/Approval.antt =====
-- src/property_agent/platform/application/approval_service.py and the table of
-- platform/infrastructure/approval_models.py. A UUID and a digest are only compared and are numbers,
-- a moment is a number of microseconds, and an operation reads the clock once.
pub mod Branches
pub mod Uniqueness
pub mod Changes
pub mod Lifecycle
use property_community_agent.Base.{
  ℕ, ◌+◌, ◌*◌, String, Bool, true, false, ◌&&◌, Option, none, some, List, [], ◌∷◌, ◌++◌, ltb, ◌==◌,
  if◌then◌else◌, str_eq, find, update_first, Result, ok, err,
}

pub data ApprovalStatus : Type 0 where
  pending approved rejected consumed expired : ApprovalStatus

pub data ApprovalError : Type 0 where
  approval_not_found approval_actor_mismatch approval_action_mismatch : ApprovalError
  approval_params_changed approval_rejected approval_expired approval_not_approved : ApprovalError
  approval_not_pending : ApprovalStatus → ApprovalError

-- A row of `agent_action_approvals`, which is also the snapshot `Approval`.
pub record Approval : Type 0 where
  pub id : ℕ
  pub conversation_id : String
  pub actor_id : ℕ
  pub action : String
  pub params_hash : ℕ
  pub status : ApprovalStatus
  pub expires_at : ℕ
  pub approved_at : Option ℕ
  pub consumed_at : Option ℕ

abbrev pub Approvals : Type 0
Approvals = List Approval

abbrev pub microseconds_per_minute : ℕ
microseconds_per_minute = 60000000

abbrev pub default_approval_ttl_minutes : ℕ
default_approval_ttl_minutes = 5

abbrev pub is_open_status : ApprovalStatus → Bool
is_open_status pending = true
is_open_status approved = true
is_open_status _ = false

abbrev pub is_open : Approval → Bool
is_open a = is_open_status a.status

-- `stored < now`.
abbrev pub is_expired : ℕ → ℕ → Bool
is_expired stored now = ltb stored now

-- The condition of the partial unique index and of `_select_open_approval`.
unfoldable pub is_open_for : String → String → ℕ → Approval → Bool
is_open_for conversation_id action params_hash a =
    str_eq a.conversation_id conversation_id
    && str_eq a.action action
    && a.params_hash == params_hash
    && is_open a

unfoldable pub select_open_approval : String → String → ℕ → Approvals → Option Approval
unfolding is_open_for
select_open_approval conversation_id action params_hash =
    find (is_open_for conversation_id action params_hash)

abbrev pub has_id : ℕ → Approval → Bool
has_id i a = a.id == i

-- `SELECT … WHERE id = … FOR UPDATE`.
abbrev pub get_for_update : Approvals → ℕ → Option Approval
get_for_update t i = find (has_id i) t

-- The write of one locked row.
abbrev pub write_row : ℕ → (Approval → Approval) → Approvals → Approvals
write_row i f t = update_first (has_id i) f t

abbrev pub set_status : ApprovalStatus → Approval → Approval
set_status s a = record a { status = s }

abbrev pub set_approved : ℕ → Approval → Approval
set_approved now a = record a { status = approved; approved_at = some now }

abbrev pub set_consumed : ℕ → Approval → Approval
set_consumed now a = record a { status = consumed; consumed_at = some now }

-- The request of `create_pending`, with its fresh identifier.
pub record PendingRequest : Type 0 where
  pub new_id : ℕ
  pub conversation_id : String
  pub actor_id : ℕ
  pub action : String
  pub params_hash : ℕ

abbrev pub pending_row : ℕ → ℕ → PendingRequest → Approval
pending_row ttl_minutes now q = record {
  id = q.new_id;
  conversation_id = q.conversation_id;
  actor_id = q.actor_id;
  action = q.action;
  params_hash = q.params_hash;
  status = pending;
  expires_at = now + ttl_minutes * microseconds_per_minute;
  approved_at = none;
  consumed_at = none;
}

-- The savepoint: the unique index refuses a second open row, and the loser reads the winner's.
abbrev insert_or_reselect : Option Approval → Approval → Approvals → Approval × Approvals
insert_or_reselect (some winner) _ t = (winner, t)
insert_or_reselect none row t = (row, t ++ row ∷ [])

abbrev create_unless :
    Option Approval
    → (Approvals → Approvals)
    → ℕ
    → ℕ
    → PendingRequest
    → Approvals
    → Approval × Approvals
create_unless (some existing) _ _ _ _ t = (existing, t)
create_unless none rivals ttl_minutes now q t =
    let t' = rivals t in
    insert_or_reselect (select_open_approval q.conversation_id q.action q.params_hash t')
      (pending_row ttl_minutes now q) t'

-- `create_pending`. `rivals` is what other transactions commit between the first SELECT and the
-- INSERT; with no rival it is the identity.
unfoldable pub create_pending :
    (Approvals → Approvals) → ℕ → ℕ → PendingRequest → Approvals → Approval × Approvals
unfolding select_open_approval
create_pending rivals ttl_minutes now q t =
    create_unless (select_open_approval q.conversation_id q.action q.params_hash t) rivals
      ttl_minutes now q t

abbrev approve_row :
    Option Approval → ℕ → ℕ → ℕ → Approvals → Result ApprovalError Approval × Approvals
approve_row none i actor now t = (err approval_not_found, t)
approve_row (some m) i actor now t = elim m.status [
  | pending ↦
      if m.actor_id == actor
      then if is_expired m.expires_at now
        then (err approval_expired, write_row i (set_status expired) t)
        else (ok (set_approved now m), write_row i (set_approved now) t)
      else (err approval_actor_mismatch, t)
  | _ ↦ (err (approval_not_pending m.status), t)
]

-- `approve`: a transaction of its own, which commits the expiry of a row before it raises.
unfoldable pub approve : ℕ → ℕ → ℕ → Approvals → Result ApprovalError Approval × Approvals
approve i actor now t = approve_row (get_for_update t i) i actor now t

-- The checks of `consume` after those of the binding, on the locked row.
abbrev consume_status : Approval → ℕ → ℕ → Approvals → Result ApprovalError (Approval × Approvals)
consume_status m i now t = elim m.status [
  | consumed ↦ ok (m, t)
  | rejected ↦ err approval_rejected
  | expired ↦ err approval_expired
  | pending ↦
      if is_expired m.expires_at now then err approval_expired else err approval_not_approved
  | approved ↦
      if is_expired m.expires_at now
      then err approval_expired
      else ok (set_consumed now m, write_row i (set_consumed now) t)
]

abbrev consume_row :
    Option Approval
    → ℕ
    → ℕ
    → String
    → ℕ
    → ℕ
    → Approvals
    → Result ApprovalError (Approval × Approvals)
consume_row none i actor action hash now t = err approval_not_found
consume_row (some m) i actor action hash now t =
    if m.actor_id == actor
    then if str_eq m.action action
      then if m.params_hash == hash then consume_status m i now t else err approval_params_changed
      else err approval_action_mismatch
    else err approval_actor_mismatch

-- `consume`, in the caller's session. A raise carries no table: the caller rolls its session back,
-- and with it the EXPIRED mark that the code sets before some of the raises.
unfoldable pub consume :
    ℕ → ℕ → String → ℕ → ℕ → Approvals → Result ApprovalError (Approval × Approvals)
consume i actor action hash now t = consume_row (get_for_update t i) i actor action hash now t
