-- ===== src/Platform/Confirmation.antt =====
-- src/property_agent/platform/application/confirmation_service.py: the second-step tokens.
-- `secrets.token_urlsafe` is the argument `token`.
pub mod SingleUse
use property_community_agent.Base.{
  ℕ, ◌+◌, ◌*◌, String, Bool, true, false, Option, none, some, List, [], ◌∷◌, ◌++◌, ltb, ◌==◌,
  if◌then◌else◌, str_eq, find, update_first, Text, text_eq, is_some, Result, ok, err,
}
use property_community_agent.Platform.Approval.{microseconds_per_minute}

pub data TokenError : Type 0 where
  token_not_found token_already_used token_expired : TokenError
  token_actor_mismatch token_action_mismatch token_parameters_changed : TokenError

-- A row of `confirmation_tokens`.
pub record ConfirmationToken : Type 0 where
  pub token : Text
  pub actor_id : ℕ
  pub action : String
  pub parameter_hash : ℕ
  pub expires_at : ℕ
  pub consumed_at : Option ℕ

abbrev pub Tokens : Type 0
Tokens = List ConfirmationToken

abbrev pub confirmation_ttl_minutes : ℕ
confirmation_ttl_minutes = 5

abbrev pub has_token : Text → ConfirmationToken → Bool
has_token s r = text_eq r.token s

abbrev pub find_token : Text → Tokens → Option ConfirmationToken
find_token s t = find (has_token s) t

abbrev pub mark_consumed : ℕ → ConfirmationToken → ConfirmationToken
mark_consumed now r = record r { consumed_at = some now }

-- `generate_token` (and its alias `generate`): the new row is visible at once.
unfoldable pub generate_token : Text → ℕ → String → ℕ → ℕ → Tokens → Tokens
generate_token token actor action parameter_hash now t =
    t
    ++ record {
      token = token;
      actor_id = actor;
      action = action;
      parameter_hash = parameter_hash;
      expires_at = now + confirmation_ttl_minutes * microseconds_per_minute;
      consumed_at = none;
    }
      ∷ []

abbrev consume_record :
    Option ConfirmationToken → Text → ℕ → String → ℕ → ℕ → Tokens → Result TokenError Tokens
consume_record none token actor action parameter_hash now t = err token_not_found
consume_record (some r) token actor action parameter_hash now t =
    if is_some r.consumed_at
    then err token_already_used
    else if ltb r.expires_at now
    then err token_expired
    else if r.actor_id == actor
    then if str_eq r.action action
      then if r.parameter_hash == parameter_hash
        then ok (update_first (has_token token) (mark_consumed now) t)
        else err token_parameters_changed
      else err token_action_mismatch
    else err token_actor_mismatch

-- `consume`, and `validate_and_consume_token` with the hash computed.
unfoldable pub consume_token : Text → ℕ → String → ℕ → ℕ → Tokens → Result TokenError Tokens
consume_token token actor action parameter_hash now t =
    consume_record (find_token token t) token actor action parameter_hash now t
