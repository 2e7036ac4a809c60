-- ===== src/Inspection/Service/Responses.antt =====
-- `_idempotent_replay` of inspection/application/service.py as a lookup of stored responses.
use property_community_agent.Base.{
  ℕ, ◌≡◌, ◌⊎◌, inl, inr, Action, String, Option, some, Text, List, ◌==◌, if◌then◌else◌, ok, err,
  arith,
}
use property_community_agent.Platform.Idempotency.{
  IdempotencyRecord, IdempotencyKey, get_idempotency, add_idempotency,
}
use property_community_agent.Platform.Idempotency.Lookup.{
  ResponseLookup, found_or-ok, found_or-found, found_or_again,
}
use property_community_agent.Platform.Idempotency.PortLookup.{lookup-IsStored, port_lookup}
use property_community_agent.Inspection.Errors.{InspectionError, idempotency_conflict}
use property_community_agent.Inspection.Commands.{RequestContext}
use property_community_agent.Inspection.Snapshot.{Response}
use property_community_agent.Inspection.Repository.{InspectionDb}
use property_community_agent.Inspection.Service.{
  key_of, stored_entity, idempotent_replay, or_replay,
}

module _ {A : Type 0} (read : Response → Option A) where
  abbrev stored : InspectionDb → List (IdempotencyRecord Response)
  stored s = s.idempotency

  -- What a run leaves under its key, from which the result is read again.
  abbrev pub IsKept : IdempotencyKey → ℕ → A × InspectionDb → Type 0
  IsKept k hash r =
      (resource : ℕ) × (response : Response) × (t : List (IdempotencyRecord Response))
      × (r.1.idempotency ≡ add_idempotency k hash resource response t)
      × (read response ≡ some r.0)

  abbrev responses : ResponseLookup InspectionDb InspectionError A
  responses = port_lookup stored (stored_entity read) idempotency_conflict

  -- A call that succeeds returned a kept response and changed nothing, or ran.
  pub or_replay-ok :
      (c : RequestContext) (operation : String) (key : Text) (hash : ℕ)
      (m : Action InspectionDb InspectionError A) (s : InspectionDb) {r : A × InspectionDb}
      → or_replay read c operation key hash m s ≡ ok r
      → (r.1 ≡ s) ⊎ (m s ≡ ok r)
  unfolding idempotent_replay
  or_replay-ok c operation key hash m s {r} h =
      found_or-ok responses (key_of c operation key) hash m s {r = r} h

  -- A result that was read from a response kept under the key for the same hash, by a call that
  -- changed nothing.
  abbrev pub IsReplayed : IdempotencyKey → ℕ → InspectionDb → A × InspectionDb → Type 0
  IsReplayed k hash s r =
      (r.1 ≡ s)
      × (resource : ℕ) × (response : Response) × (get_idempotency k s.idempotency
          ≡ some (hash, resource, response))
      × (read response ≡ some r.0)

  pub or_replay-IsReplayed :
      (c : RequestContext) (operation : String) (key : Text) (hash : ℕ)
      (m : Action InspectionDb InspectionError A) (s : InspectionDb) {r : A × InspectionDb}
      → or_replay read c operation key hash m s ≡ ok r
      → IsReplayed (key_of c operation key) hash s r ⊎ (m s ≡ ok r)
  unfolding idempotent_replay
  or_replay-IsReplayed c operation key hash m s {r} h =
      let k = key_of c operation key in
      elim (found_or-found responses k hash m s {r = r} h) [
        | inr ran ↦ inr ran
        | inl (same, found) ↦
            let (resource, response, kept, d) =
              lookup-IsStored stored (stored_entity read) idempotency_conflict k hash s {a = r.0}
                {s' = s} found in
            inl (same, resource, response, kept, ground arith)
      ]

  -- After a call has succeeded, one of the same actor with the same operation and key gets the same
  -- result and changes nothing, if its hash is the same; if not, it is refused.
  pub or_replay_again :
      (c c2 : RequestContext) (operation operation2 : String) (key : Text) (hash hash2 : ℕ)
      (m m2 : Action InspectionDb InspectionError A) (s : InspectionDb) {r : A × InspectionDb}
      → c2.actor_id ≡ c.actor_id
      → operation2 ≡ operation
      → (m s ≡ ok r → IsKept (key_of c operation key) hash r)
      → or_replay read c operation key hash m s ≡ ok r
      → or_replay read c2 operation2 key hash2 m2 r.1
        ≡ (if hash == hash2 then ok r else err idempotency_conflict)
  unfolding idempotent_replay
  or_replay_again c c2 operation operation2 key hash hash2 m m2 s {r} same_actor same kept h =
      found_or_again responses (key_of c operation key) hash m s {r = r} (key_of c2 operation2 key)
        hash2 m2 (cc)
        (λ ran.
          let (resource, response, t, same_rows, d) = kept ran in
          (resource, response, t, same_rows, ground (arith, d)))
        h
