-- ===== src/Repair/Service/Responses.antt =====
-- `_idempotent_replay` of repair/application/service.py as a lookup of stored responses.
use property_community_agent.Base.{
  inl, inr, some, ℕ, ◌≡◌, List, ◌==◌, if◌then◌else◌, Action, ok, err, found_or, arith, String, Text,
  ◌⊎◌,
}
use property_community_agent.Platform.Idempotency.{
  IdempotencyRecord, IdempotencyKey, get_idempotency, add_idempotency,
}
use property_community_agent.Platform.Idempotency.Lookup.{
  found_or-ok, found_or-found, found_or_again,
}
use property_community_agent.Platform.Idempotency.PortLookup.{lookup-IsStored, port_lookup}
use property_community_agent.Repair.Errors.{RepairError, idempotency_conflict}
use property_community_agent.Repair.WorkOrder.{WorkOrder}
use property_community_agent.Repair.Commands.{RequestContext}
use property_community_agent.Repair.Snapshot.{
  Response, work_order_response, snapshot, from_response, from_snapshot-snapshot,
}
use property_community_agent.Repair.Repository.{RepairDb}
use property_community_agent.Repair.Service.{key_of, stored_order, idempotent_replay}

abbrev responses : RepairDb → List (IdempotencyRecord Response)
responses s = s.idempotency

-- The response of an order that a run leaves under its key.
abbrev pub IsKept : IdempotencyKey → ℕ → WorkOrder × RepairDb → Type 0
IsKept k hash r =
    (t : List (IdempotencyRecord Response)) × (r.1.idempotency
      ≡ add_idempotency k hash r.0.id (work_order_response (snapshot r.0)) t)

-- A call that succeeds returned a kept response and changed nothing, or ran.
pub replay_or-ok :
    (c : RequestContext) (operation : String) (key : Text) (hash : ℕ)
    (m : Action RepairDb RepairError WorkOrder) (s : RepairDb) {r : WorkOrder × RepairDb}
    → found_or (idempotent_replay c operation key hash) m s ≡ ok r
    → (r.1 ≡ s) ⊎ (m s ≡ ok r)
unfolding idempotent_replay
replay_or-ok c operation key hash m s {r} h =
    found_or-ok (port_lookup responses stored_order idempotency_conflict) (key_of c operation key)
      hash m s {r = r} h

-- An order that was read from a response kept under the key for the same hash, by a call that changed
-- nothing.
abbrev pub IsReplayed : IdempotencyKey → ℕ → RepairDb → WorkOrder × RepairDb → Type 0
IsReplayed k hash s r =
    (r.1 ≡ s)
    × (resource : ℕ) × (response : Response) × (get_idempotency k s.idempotency
        ≡ some (hash, resource, response))
    × (from_response response ≡ some r.0)

pub replay_or-IsReplayed :
    (c : RequestContext) (operation : String) (key : Text) (hash : ℕ)
    (m : Action RepairDb RepairError WorkOrder) (s : RepairDb) {r : WorkOrder × RepairDb}
    → found_or (idempotent_replay c operation key hash) m s ≡ ok r
    → IsReplayed (key_of c operation key) hash s r ⊎ (m s ≡ ok r)
unfolding idempotent_replay
replay_or-IsReplayed c operation key hash m s {r} h =
    let k = key_of c operation key in
    elim (found_or-found (port_lookup responses stored_order idempotency_conflict) k hash m s
      {r = r} h) [
        | inr ran ↦ inr ran
        | inl (same, found) ↦
            let (resource, response, kept, d) =
              lookup-IsStored responses stored_order idempotency_conflict k hash s {a = r.0}
                {s' = s} found in
            inl (same, resource, response, kept, ground arith)
      ]

-- After a call has succeeded, one of the same actor with the same operation and key gets the same
-- result and changes nothing, if its hash is the same; if not, it is refused.
pub replay_or_again :
    (c c2 : RequestContext) (operation operation2 : String) (key : Text) (hash hash2 : ℕ)
    (m m2 : Action RepairDb RepairError WorkOrder) (s : RepairDb) {r : WorkOrder × RepairDb}
    → c2.actor_id ≡ c.actor_id
    → operation2 ≡ operation
    → (m s ≡ ok r → IsKept (key_of c operation key) hash r)
    → found_or (idempotent_replay c operation key hash) m s ≡ ok r
    → found_or (idempotent_replay c2 operation2 key hash2) m2 r.1
      ≡ (if hash == hash2 then ok r else err idempotency_conflict)
unfolding idempotent_replay
replay_or_again c c2 operation operation2 key hash hash2 m m2 s {r} same_actor same kept h =
    found_or_again (port_lookup responses stored_order idempotency_conflict)
      (key_of c operation key) hash m s {r = r} (key_of c2 operation2 key) hash2 m2 (cc)
      (λ ran.
        let (t, stored) = kept ran in
        (
          r.0.id,
          work_order_response (snapshot r.0),
          t,
          stored,
          ground (arith, from_snapshot-snapshot r.0),
        ))
      h
