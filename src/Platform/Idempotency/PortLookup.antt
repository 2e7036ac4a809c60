-- ===== src/Platform/Idempotency/PortLookup.antt =====
-- A service's lookup through SqlAlchemyIdempotencyPort, for any table of responses and any reader.
use property_community_agent.Base.{
  ℕ, ◌≡◌, Option, none, some, Option-cases, Bool-cases, Result-cases, inl, inr, List, ◌==◌,
  if◌then◌else◌, Result, Action, ok, err, arith,
}
use property_community_agent.Platform.Idempotency.{
  IdempotencyRecord, IdempotencyKey, get_idempotency, read_stored, add_idempotency,
}
use property_community_agent.Platform.Idempotency.Replay.{get-add_idempotency}
use property_community_agent.Platform.Idempotency.Lookup.{ResponseLookup}

module _ {S E A R : Type 0} (table : S → List (IdempotencyRecord R)) (read : ℕ → R → Result E A)
    (conflict : E) where
  abbrev pub lookup : IdempotencyKey → ℕ → Action S E (Option A)
  lookup k hash s = read_stored read conflict (get_idempotency k (table s)) hash s

  -- What a run leaves under its key, from which the result is read again.
  abbrev pub IsKept : IdempotencyKey → ℕ → A × S → Type 0
  IsKept k hash r =
      (resource : ℕ) × (response : R) × (t : List (IdempotencyRecord R)) × (table r.1
        ≡ add_idempotency k hash resource response t)
      × (read resource response ≡ ok r.0)

  pub lookup-none :
      (k : IdempotencyKey) (hash : ℕ) (s : S) {s' : S} → lookup k hash s ≡ ok (none, s') → s' ≡ s
  lookup-none k hash s {s'} h = elim (Option-cases (get_idempotency k (table s))) [
    | inl e ↦ ground arith
    | inr ((stored_hash, resource, response), e) ↦ elim (Bool-cases (stored_hash == hash)) [
      | inr b ↦ ground arith
      | inl b ↦ elim (Result-cases (read resource response)) [
        | inl (a, d) ↦ ground arith
        | inr (x, d) ↦ ground arith
      ]
    ]
  ]

  pub lookup-some :
      (k : IdempotencyKey) (hash hash2 : ℕ) (s : S) {a : A} {s' : S}
      → lookup k hash s ≡ ok (some a, s')
      → (s' ≡ s) × (lookup k hash2 s ≡ (if hash == hash2 then ok (some a, s) else err conflict))
  lookup-some k hash hash2 s {a} {s'} h = elim (Option-cases (get_idempotency k (table s))) [
    | inl e ↦ ground arith
    | inr ((stored_hash, resource, response), e) ↦ elim (Bool-cases (stored_hash == hash)) [
      | inr b ↦ ground arith
      | inl b ↦ elim (Result-cases (read resource response)) [
        | inl (v, d) ↦ (ground arith, ground arith)
        | inr (x, d) ↦ ground arith
      ]
    ]
  ]

  pub lookup-kept :
      (k : IdempotencyKey) (hash hash2 : ℕ) (r : A × S)
      → IsKept k hash r
      → lookup k hash2 r.1 ≡ (if hash == hash2 then ok (some r.0, r.1) else err conflict)
  lookup-kept k hash hash2 r (resource, response, t, h, d) =
      ground (arith, get-add_idempotency k hash resource response t)

  -- The table keeps a response under the key and the hash, and this is read from it.
  abbrev pub IsStored : IdempotencyKey → ℕ → S → A → Type 0
  IsStored k hash s a =
      (resource : ℕ) × (response : R) × (get_idempotency k (table s)
        ≡ some (hash, resource, response))
      × (read resource response ≡ ok a)

  pub lookup-IsStored :
      (k : IdempotencyKey) (hash : ℕ) (s : S) {a : A} {s' : S}
      → lookup k hash s ≡ ok (some a, s')
      → IsStored k hash s a
  lookup-IsStored k hash s {a} {s'} h = elim (Option-cases (get_idempotency k (table s))) [
    | inl e ↦ ground arith
    | inr ((stored_hash, resource, response), e) ↦ elim (Bool-cases (stored_hash == hash)) [
      | inr b ↦ ground arith
      | inl b ↦ elim (Result-cases (read resource response)) [
        | inl (v, d) ↦ (resource, response, ground arith, ground arith)
        | inr (x, d) ↦ ground arith
      ]
    ]
  ]

  -- The lookup fills the interface.
  abbrev pub port_lookup : ResponseLookup S E A
  port_lookup = record {
    lookup = lookup;
    conflict = conflict;
    IsKept = IsKept;
    none_found = lookup-none;
    found_again = lookup-some;
    kept_found = lookup-kept;
  }
