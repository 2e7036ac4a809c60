-- ===== src/Platform/Idempotency/Replay.antt =====
-- Later requests with the key of a stored response.
use property_community_agent.Base.{
  ℕ, ◌≡◌, refl, Option, some, List, [], ◌∷◌, ◌==◌, inl, inr, if◌then◌else◌, eq_refl, eq_iff, str_eq,
  false, text_eq_refl, ok, err, arith, Option-cases, find-holds, find-update_first,
  find-append_none, find-append_some, find-update_first_ne,
}
use property_community_agent.Platform.Idempotency.{
  IdempotencyRecord, IdempotencyKey, idempotency_conflict, has_key, find_record, claim, check,
  set_response, update_snapshot, get_idempotency, overwrite, full_record, add_idempotency,
}

module _ {R : Type 0} (k : IdempotencyKey) where
  -- What the port adds it returns: the hash, the resource and the response of the last addition.
  pub get-add_idempotency :
      (hash resource : ℕ) (response : R) (t : List (IdempotencyRecord R))
      → get_idempotency k (add_idempotency k hash resource response t)
        ≡ some (hash, resource, response)
  unfolding get_idempotency add_idempotency
  get-add_idempotency hash resource response t = elim (Option-cases (find_record k t)) [
    | inl e ↦ ground (
      arith,
      e,
      find-append_none (has_key k) t (full_record k hash resource response ∷ []),
      eq_refl k.operation,
      text_eq_refl k.key,
    )
    | inr (m, e) ↦ ground (
      arith,
      e,
      find-update_first (has_key k) (overwrite hash resource response) t {m = m},
      find-holds (has_key k) t {x = m},
    )
  ]

  check-ok :
      (rivals : List (IdempotencyRecord R) → List (IdempotencyRecord R)) (hash : ℕ)
      (t : List (IdempotencyRecord R)) {o : Option R} {t' : List (IdempotencyRecord R)}
      → check rivals k hash t ≡ ok (o, t')
      → (r : IdempotencyRecord R) × (find_record k t' ≡ some r)
        × (r.request_hash ≡ hash)
        × (r.response_snapshot ≡ o)
  unfolding check
  check-ok rivals hash t {o} {t'} h = elim (Option-cases (find_record k t)) [
    | inr (r, e) ↦ (r, ground arith, ground arith, ground arith)
    | inl e ↦ elim (Option-cases (find_record k (rivals t))) [
      | inr (r, f) ↦ (r, ground arith, ground arith, ground arith)
      | inl f ↦ (
        claim k hash,
        ground (
          arith,
          find-append_none (has_key k) (rivals t) (claim k hash ∷ []),
          eq_refl k.operation,
          text_eq_refl k.key,
        ),
        refl,
        ground arith,
      )
    ]
  ]

  -- Once a request has been let through and has stored its response, a request with the same key
  -- and the same parameters gets that response, and one with other parameters is refused.
  pub check-update_snapshot :
      (rivals rivals' : List (IdempotencyRecord R) → List (IdempotencyRecord R))
      (hash hash' resource : ℕ) (response : R) (t : List (IdempotencyRecord R)) {o : Option R}
      {t' : List (IdempotencyRecord R)}
      → check rivals k hash t ≡ ok (o, t')
      → check rivals' k hash' (update_snapshot k resource response t') ≡ (
          if hash == hash'
          then ok (some response, update_snapshot k resource response t')
          else err idempotency_conflict)
  unfolding check update_snapshot
  check-update_snapshot rivals rivals' hash hash' resource response t {o} {t'} h =
      let (r, e, same_hash, same_response) = check-ok rivals hash t h in
      ground (
        arith,
        find-update_first (has_key k) (set_response resource response) t' {m = r},
        find-holds (has_key k) t' {x = r},
      )

-- What the port adds under one operation leaves the lookups of another operation as they are.
pub get-add_idempotency_other :
    {R : Type 0} (k k2 : IdempotencyKey) (hash resource : ℕ) (response : R)
    (t : List (IdempotencyRecord R))
    → str_eq k2.operation k.operation ≡ false
    → get_idempotency k (add_idempotency k2 hash resource response t) ≡ get_idempotency k t
unfolding get_idempotency add_idempotency
get-add_idempotency_other k k2 hash resource response t differ =
    elim (Option-cases (find_record k2 t)) [
      | inl e ↦ elim (Option-cases (find_record k t)) [
        | inl d ↦
            ground
              (arith, find-append_none (has_key k) t (full_record k2 hash resource response ∷ []))
        | inr (m, d) ↦ ground (
          arith,
          find-append_some (has_key k) t (full_record k2 hash resource response ∷ []) {m = m},
        )
      ]
      | inr (m, e) ↦
          let own = find-holds (has_key k2) t {x = m} e in
          let same : m.operation ≡ k2.operation = ground (arith, eq_iff m.operation k2.operation) in
          ground (
            arith,
            find-update_first_ne (has_key k) (has_key k2) (overwrite hash resource response) t
                {m = m} e,
          )
    ]
