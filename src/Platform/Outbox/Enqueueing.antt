-- ===== src/Platform/Outbox/Enqueueing.antt =====
-- The deduplication of `enqueue` of outbox_dispatcher.py.
use property_community_agent.Base.{
  ℕ, ◌≤◌, ◌≡◌, refl, inl, inr, List, [], ◌∷◌, find, count_where, Text, text_eq_iff, text_eq_refl,
  arith, Option-cases, find-append_none, count_where-append, count_where-find-none,
}
use property_community_agent.Platform.Tables.{Message}
use property_community_agent.Platform.Outbox.{
  Notice, new_message, has_message_key, storage_key, enqueue,
}

-- What the deduplication is for: no key is stored twice.
abbrev pub KeysUnique : List Message → Type 0
KeysUnique t = (key : Text) → count_where (has_message_key key) t ≤ 1

module _ (sha256_hex : Text → Text) (now now' new_id new_id' : ℕ) (n n' : Notice)
    (t : List Message) where
  -- A second message with the same key is not stored, and the caller gets the first one's
  -- identifier, whatever else the two say.
  pub enqueue_again :
      n'.idempotency_key ≡ n.idempotency_key
      → let (i, t') = enqueue sha256_hex new_id now n t in
        enqueue sha256_hex new_id' now' n' t' ≡ (i, t')
  unfolding enqueue
  enqueue_again k =
      let key = storage_key sha256_hex n.idempotency_key in
      elim (Option-cases (find (has_message_key key) t)) [
        | inr (m, e) ↦ rw (k, e) (rw e refl)
        | inl e ↦
            rw (k, e)
              (ground (
                arith,
                find-append_none (has_message_key key) t (new_message new_id now key n ∷ []),
                text_eq_refl key,
              ))
      ]

  -- No key is ever stored twice.
  pub enqueue-KeysUnique : KeysUnique t → KeysUnique (enqueue sha256_hex new_id now n t).1
  unfolding enqueue
  enqueue-KeysUnique u key =
      elim (Option-cases (find (has_message_key (storage_key sha256_hex n.idempotency_key)) t)) [
        | inr (m, e) ↦ rw e (u key)
        | inl e ↦ rw e (
            ground (
              arith,
              u key,
              count_where-append (has_message_key key) t
                  (new_message new_id now (storage_key sha256_hex n.idempotency_key) n ∷ []),
              count_where-find-none (has_message_key (storage_key sha256_hex n.idempotency_key)) t,
              text_eq_iff (storage_key sha256_hex n.idempotency_key) key,
            ))
      ]
