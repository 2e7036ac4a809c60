-- ===== src/Repair/Service/Reviews.antt =====
-- `create_review` of src/property_agent/repair/application/service.py, with `add_review` of the
-- repository.
pub mod ReviewEffects
use property_community_agent.Base.{
  ℕ, Bool, true, false, not, ◌&&◌, Option, none, some, List, [], ◌∷◌, ◌++◌, leb, mem_id, Text,
  Action, ◌>>=◌, ◌>>◌, pure, found_or, require, modify,
}
use property_community_agent.Platform.Tables.{number}
use property_community_agent.Repair.Enums.{resident, closed, create_review, status_eq}
use property_community_agent.Repair.Errors.{RepairError, validation_error, review_already_exists}
use property_community_agent.Repair.WorkOrder.{WorkOrder}
use property_community_agent.Repair.Commands.{RequestContext, CreateReviewCommand}
use property_community_agent.Repair.Repository.{RepairDb}
use property_community_agent.Repair.Service.{
  Environment, review_payload, denied, require_idempotency_key, optional_text, idempotent_replay,
  record_response, audit, get_authorized,
}

abbrev pub add_review : WorkOrder → CreateReviewCommand → RequestContext → ℕ → RepairDb → RepairDb
add_review w k c now s = record s {
  reviews =
      s.reviews
      ++ record {
        community_id = c.community_id;
        work_order_id = w.id;
        reviewer_id = c.actor_id;
        rating = k.rating;
        comment = optional_text k.comment;
        created_at = now;
      }
        ∷ [];
}

-- A resident of the order's house.
abbrev pub lives_there : WorkOrder → RequestContext → Bool
lives_there w c = c.roles resident && mem_id w.house_id c.house_ids

-- The part of `create_review` that runs when no response is stored.
unfoldable pub run_review :
    Environment
    → ℕ
    → CreateReviewCommand
    → RequestContext
    → Text
    → Action RepairDb RepairError WorkOrder
run_review env i k c key = do
  w ← get_authorized i c
  require (status_eq w.status closed) (validation_error "Only a closed work order can be reviewed.")
  require (lives_there w c) denied
  require (not w.has_review) review_already_exists
  modify (add_review w k c env.now)
  let w' = record w { has_review = true }
  modify (
      record_response c "WORK_ORDER_CREATE_REVIEW" key (env.canonical_hash (review_payload i k)) w')
  modify (audit w' c create_review (("rating", number k.rating) ∷ []))
  pure w'

-- `create_review`.
unfoldable pub review_order :
    Environment
    → ℕ
    → CreateReviewCommand
    → RequestContext
    → Text
    → Action RepairDb RepairError WorkOrder
review_order env i k c key = do
  require_idempotency_key key
  require (leb 1 k.rating && leb k.rating 5) (validation_error "Rating must be between 1 and 5.")
  found_or
      (idempotent_replay c "WORK_ORDER_CREATE_REVIEW" key (env.canonical_hash (review_payload i k)))
      (run_review env i k c key)
