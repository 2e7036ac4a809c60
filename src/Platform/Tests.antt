-- ===== src/Platform/Tests.antt =====
-- The platform package on concrete tables.
use property_community_agent.Base.{
  length, count_where, ℕ, ◌+◌, ◌<◌, ◌≡◌, ◌↔◌, refl, true, false, none, some, List, [], ◌∷◌, ◌==◌,
  if◌then◌else◌, chars, text_eq, has_content, is_space, ok, err, All, arith,
}
use property_community_agent.Platform.Approval.{
  Approval, pending, PendingRequest, approve, consume, get_for_update, set_approved, set_consumed,
}
use property_community_agent.Platform.Approval.Uniqueness.{OpenUnique}
use property_community_agent.Platform.Approval.Changes.{
  Request, confirm, use_up, handle, handle_all,
}
use property_community_agent.Platform.Approval.Lifecycle.{
  WasConfirmed, WasUsed, consumed_needs_confirmation,
}
use property_community_agent.Platform.Confirmation.{
  ConfirmationToken, Tokens, token_already_used, consume_token,
}
use property_community_agent.Platform.Confirmation.SingleUse.{consume_token_once}
use property_community_agent.Platform.Tables.{PlatformDb, Message, User, HandoverTicket, failed}
use property_community_agent.Platform.Tables as Tables
use property_community_agent.Platform.ConfirmationPort.{human, FenceSetting, consume_confirmation}
use property_community_agent.Platform.ConfirmationPort.Guarantees.{
  FencePassed, ApprovalPassed, TokenPassed, consume_confirmation-ok, consumed_approval_accepted,
}
use property_community_agent.Platform.Idempotency.{
  IdempotencyKey, idempotency_conflict, check, update_snapshot, get_idempotency, add_idempotency,
  claim,
}
use property_community_agent.Platform.Idempotency.Replay.{
  get-add_idempotency, check-update_snapshot,
}
use property_community_agent.Platform.Outbox.{Notice, Delivery, refused, process_batch}
use property_community_agent.Platform.Outbox.Enqueueing.{KeysUnique}
use property_community_agent.Platform.Outbox.Retries.{
  IsLive, total_retries, fails, due, process_batch-IsLive,
}
use property_community_agent.Platform.LoginGuard.{
  LoginGuard, login_locked, record_failure, ensure_allowed, find_attempt, normalize_username,
}
use property_community_agent.Platform.LoginGuard.Locking.{record_failure_locks}

abbrev request : PendingRequest
request = record {
  new_id = 1;
  conversation_id = "c";
  actor_id = 20;
  action = "CREATE_WORK_ORDER";
  params_hash = 5;
}

abbrev waiting : Approval
waiting = record {
  id = 1;
  conversation_id = "c";
  actor_id = 20;
  action = "CREATE_WORK_ORDER";
  params_hash = 5;
  status = pending;
  expires_at = 5000;
  approved_at = none;
  consumed_at = none;
}

abbrev whole_life : List Request
whole_life = confirm 1 20 1000 ∷ use_up 1 20 "CREATE_WORK_ORDER" 5 2000 ∷ []

abbrev used_up : Approval
used_up = set_consumed 2000 (set_approved 1000 waiting)

used_up_found : get_for_update (handle_all whole_life (waiting ∷ [])) 1 ≡ some used_up
unfolding handle_all handle approve consume
used_up_found = refl

consumed_needs_confirmation_example :
    WasConfirmed 1 waiting whole_life × WasUsed 1 waiting whole_life
consumed_needs_confirmation_example =
    consumed_needs_confirmation 1 whole_life (waiting ∷ []) {m = waiting} {m' = used_up} refl refl
      used_up_found refl

no_open_twice : OpenUnique []
no_open_twice conversation action hash = omega arith

abbrev token : ConfirmationToken
token = record {
  token = chars "t";
  actor_id = 20;
  action = "CREATE_WORK_ORDER";
  parameter_hash = 5;
  expires_at = 5000;
  consumed_at = none;
}

abbrev used_token : Tokens
used_token = record token { consumed_at = some 1000 } ∷ []

consumes_token :
    consume_token (chars "t") 20 "CREATE_WORK_ORDER" 5 1000 (token ∷ []) ≡ ok used_token
unfolding consume_token text_eq
consumes_token = refl

consume_token_once_example :
    consume_token (chars "t") 21 "PUBLISH" 6 2000 used_token ≡ err token_already_used
consume_token_once_example =
    consume_token_once (chars "t") 20 21 "CREATE_WORK_ORDER" "PUBLISH" 5 6 1000 2000 (token ∷ [])
      {t' = used_token} consumes_token

abbrev tables : PlatformDb
tables = record {
  approvals = used_up ∷ [];
  tokens = token ∷ [];
  users = record { id = 20; community_id = 1; status = "ACTIVE" } ∷ [];
  user_roles = [];
  houses = [];
  house_bindings = [];
  attachments = [];
  run_leases = [];
  messages = [];
  handover_tickets = [];
  audit_logs = [];
}

abbrev no_fence : FenceSetting
no_fence = record { enforce_fence = false; current = none }

consumes_both :
    consume_confirmation no_fence (some 1) (chars "t") 20 "CREATE_WORK_ORDER" 5 1000 tables
    ≡ ok (tt, record tables { tokens = used_token })
unfolding consume_confirmation consume consume_token text_eq has_content is_space
consumes_both = refl

consume_confirmation-ok_example :
    FencePassed no_fence 1000 tables
    × ApprovalPassed (some 1) 20 "CREATE_WORK_ORDER" 5 1000 tables
    × TokenPassed (chars "t") 20 "CREATE_WORK_ORDER" 5 1000 (token ∷ [])
consume_confirmation-ok_example =
    consume_confirmation-ok no_fence (some 1) (chars "t") 20 "CREATE_WORK_ORDER" 5 1000 tables
      {s' = record tables { tokens = used_token }} consumes_both

token_has_content : has_content (chars "t") ≡ true
unfolding has_content is_space
token_has_content = refl

abbrev enforced : FenceSetting
enforced = record {
  enforce_fence = true;
  current = some (record { execution_source = human; agent_lease = none });
}

consumed_approval_accepted_example :
    consume_confirmation enforced
      (some 1)
      (chars "u")
      20
      "CREATE_WORK_ORDER"
      5
      9000
      (record tables { tokens = used_token })
    ≡ consume_confirmation enforced none
        (chars "u")
        20
        "CREATE_WORK_ORDER"
        5
        9000
        (record tables { tokens = used_token })
consumed_approval_accepted_example =
    consumed_approval_accepted no_fence enforced 1 20 "CREATE_WORK_ORDER" 5 1000 9000 (chars "t")
      (chars "u") tables (record tables { tokens = used_token })
      {s1 = record tables { tokens = used_token }} consumes_both refl

abbrev key : IdempotencyKey
key = record { actor_id = 20; operation = "CREATE_WORK_ORDER"; key = chars "k" }

get-add_idempotency_example :
    get_idempotency {R = ℕ} key (add_idempotency key 5 7 9 []) ≡ some (5, 7, 9)
get-add_idempotency_example = get-add_idempotency key 5 7 9 []

claims : check (λ t. t) key 5 [] ≡ ok (none, claim {R = ℕ} key 5 ∷ [])
unfolding check
claims = refl

check-update_snapshot_example :
    check {R = ℕ} (λ t. t) key 6 (update_snapshot key 7 9 (claim {R = ℕ} key 5 ∷ [])) ≡ (
      if 5 == 6
      then ok (some 9, update_snapshot key 7 9 (claim {R = ℕ} key 5 ∷ []))
      else err idempotency_conflict)
check-update_snapshot_example =
    check-update_snapshot key (λ t. t) (λ t. t) 5 6 7 9 [] {o = none} {t' = claim key 5 ∷ []} claims

abbrev hello : Notice
hello = record {
  receiver_id = 20;
  business_type = "REPAIR";
  resource_id = chars "w";
  title = "t";
  body = "b";
  idempotency_key = chars "k";
}

no_message_twice : KeysUnique []
no_message_twice k = omega arith

abbrev failures : List (ℕ × Delivery)
failures = (1, refused) ∷ (2, refused) ∷ []

abbrev one_more : List ℕ
one_more = 20 ∷ []

abbrev message : Message
message = record {
  id = 3;
  receiver_id = 20;
  business_type = "REPAIR";
  resource_id = chars "w";
  title = "t";
  body = "b";
  status = Tables.pending;
  read_at = none;
  retry_count = 0;
  last_error = none;
  idempotency_key = chars "k";
  created_at = 10;
  updated_at = 10;
}

message-IsLive : IsLive 5 message
message-IsLive = record { waits = λ e. omega arith; given_up = λ e. cc }

abbrev one_waiting : PlatformDb
one_waiting = record tables { messages = message ∷ [] }

abbrev a_batch : ℕ × PlatformDb
a_batch = process_batch 5 1000 (λ i. i) (λ m. refused) true 10 one_waiting

process_batch-IsLive_example :
    All (IsLive 5) a_batch.1.messages
    × (total_retries a_batch.1.messages
        ≡ total_retries (message ∷ [])
          + count_where (λ m. fails refused) (due 1000 true 10 (message ∷ [])))
    × (a_batch.0 ≡ length (due 1000 true 10 (message ∷ [])))
process_batch-IsLive_example =
    process_batch-IsLive 5 1000 (λ i. i) (λ m. refused) true 10 one_waiting (message-IsLive, tt)

abbrev guard : LoginGuard
guard = record { failure_limit = 1; window = 100; lock_duration = 50 }

locks : (record_failure (λ s. s) (λ t. t) guard (chars "u") (chars "i") 10 []).0 ≡ true
unfolding record_failure
locks = refl

record_failure_locks_example :
    (ensure_allowed
        (λ s. s)
        (chars "u")
        (chars "i")
        20
        (record_failure (λ s. s) (λ t. t) guard (chars "u") (chars "i") 10 []).1
      ≡ err login_locked)
    ↔ (20 < 10 + 50)
record_failure_locks_example =
    record_failure_locks (λ s. s) guard (chars "u") (chars "i") (λ t. t) 10 20 [] locks

no_row : find_attempt (normalize_username (λ s. s) (chars "u")) (chars "i") [] ≡ none
unfolding find_attempt
no_row = refl
