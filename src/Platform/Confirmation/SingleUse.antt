-- ===== src/Platform/Confirmation/SingleUse.antt =====
-- What a successful `consume` of confirmation_service.py shows, and a second one.
use property_community_agent.Base.{
  ℕ, ◌≤◌, ◌≡◌, refl, String, Option, none, some, eq_iff, update_first, Text, ok, err, arith,
  find-update_first, find-holds,
}
use property_community_agent.Platform.Confirmation.{
  ConfirmationToken, Tokens, token_already_used, has_token, find_token, mark_consumed,
  consume_record, consume_token,
}

consume_record-ok :
    (o : Option ConfirmationToken) (s : Text) (actor : ℕ) (action : String) (hash now : ℕ)
    (t : Tokens) {t' : Tokens}
    → consume_record o s actor action hash now t ≡ ok t'
    → (r : ConfirmationToken) × (o ≡ some r)
      × (r.consumed_at ≡ none)
      × (now ≤ r.expires_at)
      × (r.actor_id ≡ actor)
      × (r.action ≡ action)
      × (r.parameter_hash ≡ hash)
      × (t' ≡ update_first (has_token s) (mark_consumed now) t)
consume_record-ok none s actor action hash now t h = cc
consume_record-ok (some r) s actor action hash now t h = (
  r,
  refl,
  ground (arith, eq_iff r.action action),
  ground (arith, eq_iff r.action action),
  ground (arith, eq_iff r.action action),
  ground (arith, eq_iff r.action action),
  ground (arith, eq_iff r.action action),
  ground (arith, eq_iff r.action action),
)

-- A token is consumed only when it is stored, unused, not past its expiry, and issued to the same
-- actor for the same action and parameters; the write marks it.
pub consume_token-ok :
    (s : Text) (actor : ℕ) (action : String) (hash now : ℕ) (t : Tokens) {t' : Tokens}
    → consume_token s actor action hash now t ≡ ok t'
    → (r : ConfirmationToken) × (find_token s t ≡ some r)
      × (r.consumed_at ≡ none)
      × (now ≤ r.expires_at)
      × (r.actor_id ≡ actor)
      × (r.action ≡ action)
      × (r.parameter_hash ≡ hash)
      × (t' ≡ update_first (has_token s) (mark_consumed now) t)
unfolding consume_token
consume_token-ok s actor action hash now t h =
    consume_record-ok (find_token s t) s actor action hash now t h

used_token :
    (s : Text) (actor : ℕ) (action : String) (hash now : ℕ) (t : Tokens) {r : ConfirmationToken}
    {at : ℕ}
    → find_token s t ≡ some r
    → r.consumed_at ≡ some at
    → consume_token s actor action hash now t ≡ err token_already_used
unfolding consume_token
used_token s actor action hash now t e c = ground arith

-- After a consumption every later one of the same token is refused, whoever asks and for whatever.
pub consume_token_once :
    (s : Text) (actor actor' : ℕ) (action action' : String) (hash hash' now now' : ℕ) (t : Tokens)
    {t' : Tokens}
    → consume_token s actor action hash now t ≡ ok t'
    → consume_token s actor' action' hash' now' t' ≡ err token_already_used
consume_token_once s actor actor' action action' hash hash' now now' t {t'} h =
    let (r, f, c, l, a, b, d, e) = consume_token-ok s actor action hash now t h in
    used_token s actor' action' hash' now' t' {r = mark_consumed now r}
      (ground (
        arith,
        find-update_first (has_token s) (mark_consumed now) t {m = r},
        find-holds (has_token s) t {x = r},
      ))
      refl
