-- ===== src/Agent/ConfirmationProvider/Confirmed.antt =====
-- Where a confirmed turn gets to, and where it does not.
use property_community_agent.Base.{
  ℕ, ◌+◌, ◌*◌, ◌≤◌, ◌≡◌, false, none, some, [], ◌∷◌, ◌++◌, ==_refl, str_eq, eq_refl, text_eq_refl,
  ok, err, arith, find-append_none, find-update_first, update_first,
}
use property_community_agent.Platform.Approval.{
  Approval, Approvals, write_row, approved, approval_not_pending, default_approval_ttl_minutes,
  microseconds_per_minute, select_open_approval, get_for_update, has_id, pending_row,
  create_pending, approve, consume, set_approved, set_consumed,
}
use property_community_agent.Platform.Confirmation.{
  ConfirmationToken, Tokens, mark_consumed, find_token, has_token, confirmation_ttl_minutes,
  generate_token, consume_token,
}
use property_community_agent.Agent.ConfirmationProvider.{
  Confirmation, ConfirmationTables, pending_request, prepare_confirmation,
}

-- An approval that has been confirmed but not used blocks its key: however the same action with the
-- same parameters is confirmed again in the conversation, at whatever time, the turn fails, and the
-- approval stays as it is. A token is issued each time.
pub prepare_confirmation_stuck :
    (q : Confirmation) (now : ℕ) (s : ConfirmationTables) (m : Approval)
    → str_eq q.conversation_id "" ≡ false
    → select_open_approval q.conversation_id q.action q.params_hash s.approvals ≡ some m
    → get_for_update s.approvals m.id ≡ some m
    → m.status ≡ approved
    → prepare_confirmation q now s ≡ (
      err (approval_not_pending approved),
      record s {
        tokens = generate_token q.new_token q.actor_id q.action q.params_hash now s.tokens;
      },
    )
unfolding prepare_confirmation create_pending approve
prepare_confirmation_stuck q now s m named open_one found e = ground arith

abbrev token_row : Confirmation → ℕ → ConfirmationToken
token_row q now = record {
  token = q.new_token;
  actor_id = q.actor_id;
  action = q.action;
  parameter_hash = q.params_hash;
  expires_at = now + confirmation_ttl_minutes * microseconds_per_minute;
  consumed_at = none;
}

module _ (q : Confirmation) (now : ℕ) (s : ConfirmationTables)
    (named : str_eq q.conversation_id "" ≡ false)
    (no_open : select_open_approval q.conversation_id q.action q.params_hash s.approvals ≡ none)
    (fresh : get_for_update s.approvals q.new_id ≡ none) where
  prepared :
      let row = pending_row default_approval_ttl_minutes now (pending_request q) in
      let r = prepare_confirmation q now s in
      (r.0 ≡ ok (q.new_token, some q.new_id))
      × (r.1.tokens ≡ generate_token q.new_token q.actor_id q.action q.params_hash now s.tokens)
      × (get_for_update r.1.approvals q.new_id ≡ some (set_approved now row))
  unfolding prepare_confirmation create_pending approve
  prepared =
      let row = pending_row default_approval_ttl_minutes now (pending_request q) in
      let found : get_for_update (s.approvals ++ row ∷ []) q.new_id ≡ some row =
        ground (arith, find-append_none (has_id q.new_id) s.approvals (row ∷ [])) in
      let written =
        find-update_first (has_id q.new_id) (set_approved now) (s.approvals ++ row ∷ []) {m = row}
          found (==_refl q.new_id) in
      (ground arith, ground arith, ground arith)

  -- A turn that is confirmed in a named conversation, with no open approval for it and under a
  -- fresh token and identifier, gets the token and an approval, and for five minutes both can be
  -- used for the confirmed action with the confirmed parameters.
  pub prepared_can_be_used :
      (later : ℕ)
      → find_token q.new_token s.tokens ≡ none
      → now ≤ later
      → later ≤ now + 5 * microseconds_per_minute
      → let r = prepare_confirmation q now s in
        (r.0 ≡ ok (q.new_token, some q.new_id))
        × ((p : Approval × Approvals) × (consume q.new_id q.actor_id q.action q.params_hash later
                r.1.approvals
              ≡ ok p))
        × ((t : Tokens) × (consume_token q.new_token q.actor_id q.action q.params_hash later
                r.1.tokens
              ≡ ok t))
  unfolding consume consume_token generate_token
  prepared_can_be_used later new_token_fresh before in_time =
      let (out, tokens, found) = prepared in
      let r = prepare_confirmation q now s in
      let row = pending_row default_approval_ttl_minutes now (pending_request q) in
      let new_token = token_row q now in
      let found_token : find_token q.new_token (s.tokens ++ new_token ∷ []) ≡ some new_token =
        ground (
          arith,
          find-append_none (has_token q.new_token) s.tokens (new_token ∷ []),
          text_eq_refl q.new_token,
        ) in
      (
        out,
        (
          (
            set_consumed later (set_approved now row),
            write_row q.new_id (set_consumed later) r.1.approvals,
          ),
          ground (arith, eq_refl q.action),
        ),
        (
          update_first (has_token q.new_token) (mark_consumed later) (s.tokens ++ new_token ∷ []),
          ground (arith, tokens, eq_refl q.action),
        ),
      )
