-- ===== src/Platform/Idempotency.antt =====
-- The table `idempotency_records` through its two doors: IdempotencyService of
-- src/property_agent/platform/application/idempotency_service.py (claim the key, then store the
-- response), and SqlAlchemyIdempotencyPort of repair/infrastructure/shared_ports.py (look up, then
-- add). The response is of any type.
pub mod Replay
pub mod Lookup
pub mod PortLookup
use property_community_agent.Base.{
  ℕ, String, Bool, true, false, ◌&&◌, Option, none, some, List, [], ◌∷◌, ◌++◌, ◌==◌, if◌then◌else◌,
  str_eq, find, update_first, Text, text_eq, Result, Action, ok, err,
}

pub record IdempotencyRecord (R : Type 0) : Type 0 where
  pub actor_id : ℕ
  pub operation : String
  pub key : Text
  pub request_hash : ℕ
  pub resource_id : Option ℕ
  pub response_snapshot : Option R

pub data IdempotencyError : Type 0 where
  idempotency_conflict : IdempotencyError

-- What a lookup by actor, operation and key asks for.
pub record IdempotencyKey : Type 0 where
  pub actor_id : ℕ
  pub operation : String
  pub key : Text

module _ {R : Type 0} where
  unfoldable pub has_key : IdempotencyKey → IdempotencyRecord R → Bool
  has_key k r = r.actor_id == k.actor_id && str_eq r.operation k.operation && text_eq r.key k.key

  unfoldable pub find_record :
      IdempotencyKey → List (IdempotencyRecord R) → Option (IdempotencyRecord R)
  unfolding has_key
  find_record k t = find (has_key k) t

  abbrev pub claim : IdempotencyKey → ℕ → IdempotencyRecord R
  claim k hash = record {
    actor_id = k.actor_id;
    operation = k.operation;
    key = k.key;
    request_hash = hash;
    resource_id = none;
    response_snapshot = none;
  }

  abbrev compare_hash :
      IdempotencyRecord R
      → ℕ
      → List (IdempotencyRecord R)
      → Result IdempotencyError (Option R × List (IdempotencyRecord R))
  compare_hash r hash t =
      if r.request_hash == hash then ok (r.response_snapshot, t) else err idempotency_conflict

  abbrev claim_or_compare :
      Option (IdempotencyRecord R)
      → IdempotencyKey
      → ℕ
      → List (IdempotencyRecord R)
      → Result IdempotencyError (Option R × List (IdempotencyRecord R))
  claim_or_compare none k hash t = ok (none, t ++ claim k hash ∷ [])
  claim_or_compare (some winner) k hash t = compare_hash winner hash t

  abbrev check_found :
      Option (IdempotencyRecord R)
      → (List (IdempotencyRecord R) → List (IdempotencyRecord R))
      → IdempotencyKey
      → ℕ
      → List (IdempotencyRecord R)
      → Result IdempotencyError (Option R × List (IdempotencyRecord R))
  check_found (some r) rivals k hash t = compare_hash r hash t
  check_found none rivals k hash t =
      let t' = rivals t in claim_or_compare (find_record k t') k hash t'

  -- `IdempotencyService.check`. `rivals` is what other transactions commit between the first query
  -- and the insert, where the unique constraint then decides; with no rival it is the identity.
  unfoldable pub check :
      (List (IdempotencyRecord R) → List (IdempotencyRecord R))
      → IdempotencyKey
      → ℕ
      → List (IdempotencyRecord R)
      → Result IdempotencyError (Option R × List (IdempotencyRecord R))
  unfolding find_record
  check rivals k hash t = check_found (find_record k t) rivals k hash t

  abbrev pub set_response : ℕ → R → IdempotencyRecord R → IdempotencyRecord R
  set_response resource response r = record r {
    resource_id = some resource;
    response_snapshot = some response;
  }

  -- `IdempotencyService.update_snapshot`; a key that is not stored changes nothing.
  unfoldable pub update_snapshot :
      IdempotencyKey → ℕ → R → List (IdempotencyRecord R) → List (IdempotencyRecord R)
  unfolding has_key
  update_snapshot k resource response t =
      update_first (has_key k) (set_response resource response) t

  abbrev completed : Option (IdempotencyRecord R) → Option (ℕ × ℕ × R)
  completed none = none
  completed (some r) = elim r.resource_id [
    | none ↦ none
    | some resource ↦ elim r.response_snapshot [
      | none ↦ none
      | some response ↦ some (r.request_hash, resource, response)
    ]
  ]

  -- `SqlAlchemyIdempotencyPort.get`: the request's hash, the resource and the response; a claimed
  -- key without a response counts as absent.
  unfoldable pub get_idempotency : IdempotencyKey → List (IdempotencyRecord R) → Option (ℕ × ℕ × R)
  unfolding find_record
  get_idempotency k t = completed (find_record k t)

  -- What the services make of a response that the port returns: a request of another hash is refused,
  -- and one of the same hash gets the result that `read` finds in the response.
  abbrev pub read_stored :
      {S E A : Type 0} → (ℕ → R → Result E A) → E → Option (ℕ × ℕ × R) → ℕ → Action S E (Option A)
  read_stored read conflict none hash s = ok (none, s)
  read_stored read conflict (some (stored_hash, resource, response)) hash s =
      if stored_hash == hash
      then elim (read resource response) [ ok a ↦ ok (some a, s) | err e ↦ err e ]
      else err conflict

  abbrev pub overwrite : ℕ → ℕ → R → IdempotencyRecord R → IdempotencyRecord R
  overwrite hash resource response r = record r {
    request_hash = hash;
    resource_id = some resource;
    response_snapshot = some response;
  }

  abbrev pub full_record : IdempotencyKey → ℕ → ℕ → R → IdempotencyRecord R
  full_record k hash resource response = overwrite hash resource response (claim k hash)

  abbrev add_found :
      Option (IdempotencyRecord R)
      → IdempotencyKey
      → ℕ
      → ℕ
      → R
      → List (IdempotencyRecord R)
      → List (IdempotencyRecord R)
  add_found none k hash resource response t = t ++ full_record k hash resource response ∷ []
  add_found (some _) k hash resource response t =
      update_first (has_key k) (overwrite hash resource response) t

  -- `SqlAlchemyIdempotencyPort.add`.
  unfoldable pub add_idempotency :
      IdempotencyKey → ℕ → ℕ → R → List (IdempotencyRecord R) → List (IdempotencyRecord R)
  unfolding find_record
  add_idempotency k hash resource response t =
      add_found (find_record k t) k hash resource response t
