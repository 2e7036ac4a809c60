-- ===== src/Agent/Tests.antt =====
-- A confirmed turn on concrete tables.
use property_community_agent.Base.{◌≡◌, refl, none, some, [], ◌∷◌, chars, ok, err, arith}
use property_community_agent.Platform.Approval.{
  Approval, Approvals, approved, approval_not_pending, consume, select_open_approval,
}
use property_community_agent.Platform.Confirmation.{Tokens, generate_token, consume_token}
use property_community_agent.Platform.Tables.{RunLease, PlatformDb}
use property_community_agent.Platform.ConfirmationPort.{Lease, stale_agent_run, assert_run_fence}
use property_community_agent.Agent.RunLease.{
  conversation_busy, renew, is_thread, first_row, lease_of, take_over, acquire,
}
use property_community_agent.Agent.RunLease.Holding.{renew_lease, handle_requests}
use property_community_agent.Agent.RunLease.Fencing.{fenced_out, acquire_exclusive}
use property_community_agent.Agent.ConfirmationProvider.{
  Confirmation, ConfirmationTables, prepare_confirmation,
}
use property_community_agent.Agent.ConfirmationProvider.Confirmed.{
  prepare_confirmation_stuck, prepared_can_be_used,
}

abbrev turn : Confirmation
turn = record {
  conversation_id = "c";
  actor_id = 20;
  action = "CREATE_WORK_ORDER";
  params_hash = 5;
  new_token = chars "t";
  new_id = 1;
}

abbrev left_over : Approval
left_over = record {
  id = 9;
  conversation_id = "c";
  actor_id = 20;
  action = "CREATE_WORK_ORDER";
  params_hash = 5;
  status = approved;
  expires_at = 100;
  approved_at = some 50;
  consumed_at = none;
}

abbrev blocked_tables : ConfirmationTables
blocked_tables = record { tokens = []; approvals = left_over ∷ [] }

abbrev empty_tables : ConfirmationTables
empty_tables = record { tokens = []; approvals = [] }

still_open : select_open_approval "c" "CREATE_WORK_ORDER" 5 (left_over ∷ []) ≡ some left_over
unfolding select_open_approval
still_open = refl

prepare_confirmation_stuck_example : prepare_confirmation turn 1000 blocked_tables ≡ (
  err (approval_not_pending approved),
  record blocked_tables { tokens = generate_token (chars "t") 20 "CREATE_WORK_ORDER" 5 1000 [] },
)
prepare_confirmation_stuck_example =
    prepare_confirmation_stuck turn 1000 blocked_tables left_over refl still_open refl refl

none_open : select_open_approval "c" "CREATE_WORK_ORDER" 5 [] ≡ none
unfolding select_open_approval
none_open = refl

prepared_can_be_used_example :
    let r = prepare_confirmation turn 1000 empty_tables in
    (r.0 ≡ ok (chars "t", some 1))
    × ((p : Approval × Approvals) × (consume 1 20 "CREATE_WORK_ORDER" 5 2000 r.1.approvals ≡ ok p))
    × ((t : Tokens) × (consume_token (chars "t") 20 "CREATE_WORK_ORDER" 5 2000 r.1.tokens ≡ ok t))
prepared_can_be_used_example =
    prepared_can_be_used turn 1000 empty_tables refl none_open refl 2000 refl (omega arith)
      (omega arith)

abbrev old_row : RunLease
old_row = first_row "c" 7 1100

abbrev old_lease : Lease
old_lease = lease_of old_row

abbrev new_row : RunLease
new_row = take_over 8 2100 old_row

first_acquired : acquire 100 "c" 7 1000 [] ≡ ok (old_lease, old_row ∷ [])
unfolding acquire
first_acquired = refl

then_acquired :
    acquire 100 "c" 8 2000 (handle_requests (renew_lease 100 old_lease 1500 ∷ []) (old_row ∷ []))
    ≡ ok (lease_of new_row, new_row ∷ [])
unfolding acquire renew is_thread
then_acquired = refl

abbrev tables : PlatformDb
tables = record {
  approvals = [];
  tokens = [];
  users = [];
  user_roles = [];
  houses = [];
  house_bindings = [];
  attachments = [];
  run_leases = new_row ∷ [];
  messages = [];
  handover_tickets = [];
  audit_logs = [];
}

fenced_out_example :
    assert_run_fence old_lease 2050 tables
    ≡ err (stale_agent_run "fence check failed (expired, preempted, or mismatched)")
fenced_out_example =
    fenced_out "c" 100 100 7 8 1000 2000 2050 (renew_lease 100 old_lease 1500 ∷ []) [] tables []
      {l = old_lease} {l2 = lease_of new_row} {t1 = old_row ∷ []} {t2 = new_row ∷ []} (omega arith)
      first_acquired then_acquired refl

acquire_exclusive_example : acquire 100 "c" 8 1100 (old_row ∷ []) ≡ err conversation_busy
acquire_exclusive_example =
    acquire_exclusive "c" 100 100 7 8 1000 1100 [] {l = old_lease} {t1 = old_row ∷ []}
      first_acquired (omega arith)
