-- ===== src/Repair/Service/Validity.antt =====
-- Valid tables of the repair package, and the operations of WorkOrderService in
-- repair/application/service.py on them.
use property_community_agent.Base.{
  ℕ, ◌≤◌, ◌≡◌, refl, sym, subst, ◌∙◌, All-unique, All-zip, any-count_where, any-append, inl, inr,
  true, false, List, [], ◌∷◌, ◌++◌, any, Text, count_where, update_where, ◌==◌, ok, arith,
  Bool-cases, All, All-append, All-update_where, All-find, count_where-append,
  count_where-update_where, ==_iff,
}
use property_community_agent.Repair.Enums.{closed}
use property_community_agent.Repair.WorkOrder.{WorkOrderModel, WorkOrder}
use property_community_agent.Repair.WorkOrder.Machine.{IsValid}
use property_community_agent.Repair.Commands.{
  RequestContext, CreateWorkOrderCommand, ExecuteActionCommand, CreateReviewCommand,
}
use property_community_agent.Repair.Repository.{
  RepairDb, Review, is_review_of, to_domain, has_order_id, in_community, is_previous, write_columns,
}
use property_community_agent.Repair.Service.{Environment}
use property_community_agent.Repair.Service.Visibility.{get-found}
use property_community_agent.Repair.Service.Create.{new_work_order, create_work_order}
use property_community_agent.Repair.Service.Create.Orders.{
  create_work_order-orders, NoneAdded, OneAdded,
}
use property_community_agent.Repair.Service.Execute.{run_action}
use property_community_agent.Repair.Service.Execute.Effects.{run_action-Recorded}
use property_community_agent.Repair.Service.Reviews.{run_review}
use property_community_agent.Repair.Service.Reviews.ReviewEffects.{new_review, run_review-ok}

-- Rows fit their states, identifiers are unique, and a review has a rating from 1 to 5 and is the
-- only one of its order.
pub record DbValid (s : RepairDb) : Type 0 where
  pub rows : All (λ m. IsValid (to_domain s.reviews m)) s.work_orders
  pub unique_ids : (i : ℕ) → count_where (has_order_id i) s.work_orders ≤ 1
  pub one_review : (i : ℕ) → count_where (is_review_of i) s.reviews ≤ 1
  pub rated : All (λ (r : Review). (1 ≤ r.rating) × (r.rating ≤ 5)) s.reviews

same_tables : {s s' : RepairDb} → NoneAdded s s' → DbValid s → DbValid s'
same_tables {s} {s'} (orders, reviews) v = record {
  rows =
      subst (λ (ms : List WorkOrderModel). All (λ m. IsValid (to_domain s'.reviews m)) ms)
        (sym orders)
        (subst (λ (rs : List Review). All (λ m. IsValid (to_domain rs m)) s.work_orders)
          (sym reviews) v.rows);
  unique_ids = λ i. ground (arith, v.unique_ids i);
  one_review = λ i. ground (arith, v.one_review i);
  rated = subst (All (λ (r : Review). (1 ≤ r.rating) × (r.rating ≤ 5))) (sym reviews) v.rated;
}

-- A new identifier is one that no order and no review has.
abbrev pub IsFresh : ℕ → RepairDb → Type 0
IsFresh i s =
    (count_where (has_order_id i) s.work_orders ≡ 0) × (any (is_review_of i) s.reviews ≡ false)

new_row-IsValid :
    (env : Environment) (k : CreateWorkOrderCommand) (c : RequestContext) (key : Text)
    (reviews : List Review)
    → any (is_review_of env.new_id) reviews ≡ false
    → IsValid (to_domain reviews (new_work_order env k c key).row)
new_row-IsValid env k c key reviews h = record {
  closed_dated = λ e. cc;
  dated_closed = λ e. cc;
  assigned = λ n. elim (n refl) [ ];
  reviewed_closed = λ e. ground arith;
  positive = omega arith;
}

one_more :
    (env : Environment) (k : CreateWorkOrderCommand) (c : RequestContext) (key : Text)
    {s s' : RepairDb}
    → IsFresh env.new_id s
    → OneAdded env k c key s s'
    → DbValid s
    → DbValid s'
one_more env k c key {s} {s'} (no_order, no_review) (_, orders, reviews) v =
    let row = (new_work_order env k c key).row in
    record {
      rows =
          subst (λ (ms : List WorkOrderModel). All (λ m. IsValid (to_domain s'.reviews m)) ms)
            (sym orders)
            (subst
              (λ (rs : List Review).
                All (λ m. IsValid (to_domain rs m)) (s.work_orders ++ row ∷ []))
              (sym reviews)
              (All-append (λ m. IsValid (to_domain s.reviews m)) s.work_orders (row ∷ []) v.rows
                (new_row-IsValid env k c key s.reviews no_review, tt)));
      unique_ids = λ i. elim (Bool-cases (env.new_id == i)) [
        | inl e ↦ ground (
          arith,
          count_where-append (has_order_id i) s.work_orders (row ∷ []),
          ==_iff env.new_id i,
        )
        | inr e ↦
            ground
              (arith, count_where-append (has_order_id i) s.work_orders (row ∷ []), v.unique_ids i)
      ];
      one_review = λ i. ground (arith, v.one_review i);
      rated = subst (All (λ (r : Review). (1 ≤ r.rating) × (r.rating ≤ 5))) (sym reviews) v.rated;
    }

-- A creation under a fresh identifier keeps the tables valid.
pub create_work_order-DbValid :
    (env : Environment) (k : CreateWorkOrderCommand) (c : RequestContext) (key : Text)
    (s : RepairDb)
    → IsFresh env.new_id s
    → DbValid s
    → DbValid (create_work_order env k c key s).1
create_work_order-DbValid env k c key s fresh v = elim (create_work_order-orders env k c key s) [
  | inl same ↦ same_tables same v
  | inr one ↦ one_more env k c key fresh one v
]

written-IsValid :
    (reviews : List Review) (w : WorkOrder) (m : WorkOrderModel)
    → w.has_review ≡ any (is_review_of m.id) reviews
    → IsValid w
    → IsValid (to_domain reviews (write_columns w m))
written-IsValid reviews w m e v = record {
  closed_dated = v.closed_dated;
  dated_closed = v.dated_closed;
  assigned = v.assigned;
  reviewed_closed = λ r. v.reviewed_closed (e ∙ r);
  positive = v.positive;
}

-- An action keeps the tables valid.
pub run_action-DbValid :
    (env : Environment) (i : ℕ) (k : ExecuteActionCommand) (c : RequestContext) (key : Text)
    (s : RepairDb) {r : WorkOrder × RepairDb}
    → run_action env i k c key s ≡ ok r
    → DbValid s
    → DbValid r.1
run_action-DbValid env i k c key s {r} h v =
    let (w, found, _, _, moved, recorded) = run_action-Recorded env i k c key s {r = r} h in
    let (m, first, e, same_id, _) = get-found i c.community_id s found in
    let w-IsValid : IsValid w =
      subst IsValid (sym e)
        (All-find (λ m. IsValid (to_domain s.reviews m)) _ s.work_orders v.rows first) in
    let written =
      All-update_where (λ m. IsValid (to_domain s.reviews m)) (is_previous r.0) (write_columns r.0)
        s.work_orders
        (λ n d. written-IsValid s.reviews r.0 n (ground arith) (moved.valid w-IsValid)) v.rows in
    record {
      rows =
          subst (λ (ms : List WorkOrderModel). All (λ m. IsValid (to_domain r.1.reviews m)) ms)
            (sym recorded.orders)
            (subst
              (λ (rs : List Review).
                All (λ m. IsValid (to_domain rs m))
                  (update_where (is_previous r.0) (write_columns r.0) s.work_orders))
              (sym recorded.same_reviews) written);
      unique_ids = λ j. ground (
        arith,
        recorded.orders,
        v.unique_ids j,
        count_where-update_where (has_order_id j) (is_previous r.0) (write_columns r.0)
            s.work_orders (λ x. refl),
      );
      one_review = λ j. ground (arith, recorded.same_reviews, v.one_review j);
      rated =
          subst (All (λ (r : Review). (1 ≤ r.rating) × (r.rating ≤ 5))) (sym recorded.same_reviews)
            v.rated;
    }

reviewed-IsValid :
    (reviews : List Review) (r : Review) (m : WorkOrderModel)
    → (m.id ≡ r.work_order_id → m.status ≡ closed)
    → IsValid (to_domain reviews m)
    → IsValid (to_domain (reviews ++ r ∷ []) m)
reviewed-IsValid reviews r m k v = record {
  closed_dated = v.closed_dated;
  dated_closed = v.dated_closed;
  assigned = v.assigned;
  reviewed_closed = λ e. elim (Bool-cases (any (is_review_of m.id) reviews)) [
    | inl b ↦ v.reviewed_closed b
    | inr b ↦ k (ground (arith, any-append (is_review_of m.id) reviews (r ∷ [])))
  ];
  positive = v.positive;
}

-- A review keeps the tables valid.
pub run_review-DbValid :
    (env : Environment) (i : ℕ) (k : CreateReviewCommand) (c : RequestContext) (key : Text)
    (s : RepairDb) {r : WorkOrder × RepairDb}
    → run_review env i k c key s ≡ ok r
    → (1 ≤ k.rating) × (k.rating ≤ 5)
    → DbValid s
    → DbValid r.1
run_review-DbValid env i k c key s {r} h bounds v =
    let (w, found, is_closed, unreviewed, _, _, orders, reviews, _) =
      run_review-ok env i k c key s {r = r} h in
    let (m, first, e, same_id, _) = get-found i c.community_id s found in
    let new = new_review w k c env.now in
    let only =
      All-unique (in_community i c.community_id) (has_order_id i) m s.work_orders first
        (ground arith) (v.unique_ids i) in
    let rows =
      All-zip (λ n. has_order_id i n ≡ true → n ≡ m) (λ n. IsValid (to_domain s.reviews n))
        (λ n. IsValid (to_domain (s.reviews ++ new ∷ []) n)) s.work_orders
        (λ n u. reviewed-IsValid s.reviews new n (λ d. ground (arith, u))) only v.rows in
    record {
      rows =
          subst (λ (ms : List WorkOrderModel). All (λ n. IsValid (to_domain r.1.reviews n)) ms)
            (sym orders)
            (subst (λ (rs : List Review). All (λ n. IsValid (to_domain rs n)) s.work_orders)
              (sym reviews) rows);
      unique_ids = λ j. ground (arith, v.unique_ids j);
      one_review = λ j. elim (Bool-cases (w.id == j)) [
        | inr b ↦
            ground (arith, v.one_review j, count_where-append (is_review_of j) s.reviews (new ∷ []))
        | inl b ↦ ground (
          arith,
          any-count_where (is_review_of m.id) s.reviews,
          ==_iff w.id j,
          count_where-append (is_review_of j) s.reviews (new ∷ []),
        )
      ];
      rated = subst (All (λ (r : Review). (1 ≤ r.rating) × (r.rating ≤ 5))) (sym reviews) (
          All-append (λ (r : Review). (1 ≤ r.rating) × (r.rating ≤ 5)) s.reviews (new ∷ []) v.rated
            (bounds, tt));
    }
