-- ===== src/Repair/Service/Reviews/ReviewEffects.antt =====
-- What `create_review` of repair/application/service.py does.
use property_community_agent.Base.{
  ℕ, ◌≤◌, ◌≡◌, ◌⊎◌, inl, inr, true, false, ◌&&◌, some, [], ◌∷◌, ◌++◌, leb, Text, ok, arith,
  Bool-cases, Result-cases,
}
use property_community_agent.Platform.Idempotency.{add_idempotency}
use property_community_agent.Repair.Enums.{closed, status_eq, create_review}
use property_community_agent.Repair.WorkOrder.{WorkOrder, is_in}
use property_community_agent.Repair.Commands.{RequestContext, CreateReviewCommand}
use property_community_agent.Repair.Snapshot.{work_order_response, snapshot}
use property_community_agent.Repair.Repository.{RepairDb, Review, get}
use property_community_agent.Repair.Service.{
  Environment, review_payload, key_of, get_authorized, is_idempotency_key, optional_text,
}
use property_community_agent.Repair.Service.Visibility.{get_authorized-ok}
use property_community_agent.Repair.Service.Responses.{replay_or-ok}
use property_community_agent.Repair.Service.Queries.{available_actions}
use property_community_agent.Repair.Service.Reviews.{lives_there, run_review, review_order}

abbrev pub new_review : WorkOrder → CreateReviewCommand → RequestContext → ℕ → Review
new_review w k c now = record {
  community_id = c.community_id;
  work_order_id = w.id;
  reviewer_id = c.actor_id;
  rating = k.rating;
  comment = optional_text k.comment;
  created_at = now;
}

-- A review that gets through is of a closed order without one, by a resident of its house, who could
-- see the action in the list of available actions; it adds one review, leaves the orders' rows as
-- they are, and returns the order marked as reviewed.
pub run_review-ok :
    (env : Environment) (i : ℕ) (k : CreateReviewCommand) (c : RequestContext) (key : Text)
    (s : RepairDb) {r : WorkOrder × RepairDb}
    → run_review env i k c key s ≡ ok r
    → (w : WorkOrder) × (get i c.community_id s ≡ some w)
      × (w.status ≡ closed)
      × (w.has_review ≡ false)
      × (is_in create_review (available_actions w c) ≡ true)
      × (r.0 ≡ record w { has_review = true })
      × (r.1.work_orders ≡ s.work_orders)
      × (r.1.reviews ≡ s.reviews ++ new_review w k c env.now ∷ [])
      × (r.1.idempotency
          ≡ add_idempotency
              (key_of c "WORK_ORDER_CREATE_REVIEW" key)
              (env.canonical_hash (review_payload i k))
              r.0.id
              (work_order_response (snapshot r.0))
              s.idempotency)
unfolding run_review available_actions
run_review-ok env i k c key s {r} h = elim (Result-cases (get_authorized i c s)) [
  | inr (x, e) ↦ ground arith
  | inl ((w, s0), e) ↦ elim (Bool-cases (status_eq w.status closed)) [
    | inr b ↦ ground arith
    | inl b ↦ elim (Bool-cases (lives_there w c)) [
      | inr d ↦ ground arith
      | inl d ↦ elim (Bool-cases w.has_review) [
        | inl f ↦ ground arith
        | inr f ↦
            let (same, found, _) = get_authorized-ok i c s {p = (w, s0)} e in
            (
              w,
              found,
              ground arith,
              f,
              ground arith,
              ground arith,
              ground arith,
              ground arith,
              ground arith,
            )
      ]
    ]
  ]
]

-- A call that succeeds returned a kept response and changed nothing, or ran with a rating from 1 to 5.
pub review_order-ok :
    (env : Environment) (i : ℕ) (k : CreateReviewCommand) (c : RequestContext) (key : Text)
    (s : RepairDb) {r : WorkOrder × RepairDb}
    → review_order env i k c key s ≡ ok r
    → (1 ≤ k.rating) × (k.rating ≤ 5) × ((r.1 ≡ s) ⊎ (run_review env i k c key s ≡ ok r))
unfolding review_order
review_order-ok env i k c key s {r} h = elim (Bool-cases (is_idempotency_key key)) [
  | inr b ↦ ground arith
  | inl b ↦ elim (Bool-cases (leb 1 k.rating && leb k.rating 5)) [
    | inr d ↦ ground arith
    | inl d ↦ (
      ground arith,
      ground arith,
      replay_or-ok c "WORK_ORDER_CREATE_REVIEW" key (env.canonical_hash (review_payload i k))
          (run_review env i k c key) s (ground arith),
    )
  ]
]
