-- ===== src/Platform/Idempotency/Lookup.antt =====
-- What the services rely on in their lookups of stored responses: `_idempotent_replay` of
-- repair/application/service.py and of inspection/application/service.py, and the head of
-- `_hand_over_high_risk`.
use property_community_agent.Base.{
  ℕ, ◌≡◌, ◌⊎◌, inl, inr, Option, none, some, ◌==◌, if◌then◌else◌, Action, ok, err, found_or, arith,
  Result-cases,
}
use property_community_agent.Platform.Idempotency.{IdempotencyKey}

-- A lookup by key and hash, and what a run leaves under its key. A response that is found or was kept
-- goes to every request with the key and the hash, and a request of another hash is refused.
pub record ResponseLookup (S E A : Type 0) : Type 1 where
  pub lookup : IdempotencyKey → ℕ → Action S E (Option A)
  pub conflict : E
  pub IsKept : IdempotencyKey → ℕ → A × S → Type 0
  pub none_found :
      (k : IdempotencyKey) (hash : ℕ) (s : S) {s' : S} → lookup k hash s ≡ ok (none, s') → s' ≡ s
  pub found_again :
      (k : IdempotencyKey) (hash hash2 : ℕ) (s : S) {a : A} {s' : S}
      → lookup k hash s ≡ ok (some a, s')
      → (s' ≡ s) × (lookup k hash2 s ≡ (if hash == hash2 then ok (some a, s) else err conflict))
  pub kept_found :
      (k : IdempotencyKey) (hash hash2 : ℕ) (r : A × S)
      → IsKept k hash r
      → lookup k hash2 r.1 ≡ (if hash == hash2 then ok (some r.0, r.1) else err conflict)

module _ {S E A : Type 0} (door : ResponseLookup S E A) (k : IdempotencyKey) (hash : ℕ)
    (m : Action S E A) (s : S) {r : A × S} where
  -- A call that succeeds returned a stored response and changed nothing, or ran.
  pub found_or-ok : found_or (door.lookup k hash) m s ≡ ok r → (r.1 ≡ s) ⊎ (m s ≡ ok r)
  found_or-ok h = elim (Result-cases (door.lookup k hash s)) [
    | inr (x, e) ↦ ground arith
    | inl ((some a, s1), e) ↦
        let (same, _) = door.found_again k hash hash s {a = a} {s' = s1} e in inl (ground arith)
    | inl ((none, s1), e) ↦ let same = door.none_found k hash s {s' = s1} e in inr (ground arith)
  ]

  -- The response that a call without a run returned.
  pub found_or-found :
      found_or (door.lookup k hash) m s ≡ ok r
      → ((r.1 ≡ s) × (door.lookup k hash s ≡ ok (some r.0, s))) ⊎ (m s ≡ ok r)
  found_or-found h = elim (Result-cases (door.lookup k hash s)) [
    | inr (x, e) ↦ ground arith
    | inl ((some a, s1), e) ↦
        let (same, _) = door.found_again k hash hash s {a = a} {s' = s1} e in
        inl (ground arith, ground arith)
    | inl ((none, s1), e) ↦ let same = door.none_found k hash s {s' = s1} e in inr (ground arith)
  ]

  -- After a call has succeeded, one with the same key gets the same result and changes nothing, if
  -- its hash is the same; if not, it is refused.
  pub found_or_again :
      (k2 : IdempotencyKey) (hash2 : ℕ) (m2 : Action S E A)
      → k2 ≡ k
      → (m s ≡ ok r → door.IsKept k hash r)
      → found_or (door.lookup k hash) m s ≡ ok r
      → found_or (door.lookup k2 hash2) m2 r.1 ≡ (if hash == hash2 then ok r else err door.conflict)
  found_or_again k2 hash2 m2 same_key kept h = elim (Result-cases (door.lookup k hash s)) [
    | inr (x, e) ↦ ground arith
    | inl ((some a, s1), e) ↦ ground (arith, door.found_again k hash hash2 s {a = a} {s' = s1} e)
    | inl ((none, s1), e) ↦
        let same = door.none_found k hash s {s' = s1} e in
        ground (arith, door.kept_found k hash hash2 r (kept (ground arith)))
  ]
