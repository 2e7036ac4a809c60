-- ===== src/Inspection/Repository/Listing.antt =====
-- What the queries of inspection/infrastructure/repository.py return.
use property_community_agent.Base.{
  ℕ, ◌+◌, ◌≤◌, ◌≡◌, inl, inr, Bool, true, leb, if◌then◌else◌, List, [], ◌∷◌, length, select, drop,
  count_where, arith, All, All-select, All-take, All-drop, subst, sym, length-take, Bool-cases,
}
use property_community_agent.Inspection.Enums.{planned, assigned, in_progress, submitted, completed}
use property_community_agent.Inspection.Task.{InspectionTask}
use property_community_agent.Inspection.Event.{SecurityEvent}
use property_community_agent.Inspection.Commands.{
  RequestContext, InspectionTaskSearch, SecurityEventSearch,
}
use property_community_agent.Inspection.Repository.Tables.{InspectionDb}
use property_community_agent.Inspection.Repository.Order.{insert_newest_first, newest_first}
use property_community_agent.Inspection.Repository.Tasks.{has_status, is_listed_task, list_tasks}
use property_community_agent.Inspection.Repository.Events.{is_listed_event, list_events}

module _ {κ} {A : Type 0} (P : A → Type κ) (created_at : A → ℕ) where
  All-insert : (m : A) (xs : List A) → P m → All P xs → All P (insert_newest_first created_at m xs)
  unfolding insert_newest_first
  All-insert m [] h hs = (h, tt)
  All-insert m (x ∷ xs) h (k, ks) = elim (Bool-cases (leb (created_at x) (created_at m))) [
    | inl e ↦
        subst
          (λ (b : Bool). All P (if b then m ∷ x ∷ xs else x ∷ insert_newest_first created_at m xs))
          (sym e) (h, (k, ks))
    | inr e ↦
        subst
          (λ (b : Bool). All P (if b then m ∷ x ∷ xs else x ∷ insert_newest_first created_at m xs))
          (sym e) (k, All-insert m xs h ks)
  ]

  All-newest_first : (xs : List A) → All P xs → All P (newest_first created_at xs)
  unfolding newest_first
  All-newest_first [] h = tt
  All-newest_first (x ∷ xs) (h, hs) =
      All-insert x (newest_first created_at xs) h (All-newest_first xs hs)

-- A page of tasks holds rows that pass the conditions, and no more than asked for.
pub list_tasks-listed :
    (community : ℕ) (q : InspectionTaskSearch) (c : RequestContext) (s : InspectionDb)
    → All (λ t. is_listed_task community q c t ≡ true) (list_tasks community q c s)
      × (length (list_tasks community q c s) ≤ q.limit)
unfolding list_tasks
list_tasks-listed community q c s =
    let P = λ (t : InspectionTask). is_listed_task community q c t ≡ true in
    let rows = newest_first (λ t. t.created_at) (select (is_listed_task community q c) s.tasks) in
    (
      All-take P q.limit (drop q.offset rows) (
          All-drop P q.offset rows (
            All-newest_first P (λ t. t.created_at) (select (is_listed_task community q c) s.tasks)
              (All-select P (is_listed_task community q c) s.tasks (λ t e. e)))),
      length-take q.limit (drop q.offset rows),
    )

pub list_events-listed :
    (community : ℕ) (q : SecurityEventSearch) (c : RequestContext) (s : InspectionDb)
    → All (λ e. is_listed_event community q c e ≡ true) (list_events community q c s)
      × (length (list_events community q c s) ≤ q.limit)
unfolding list_events
list_events-listed community q c s =
    let P = λ (e : SecurityEvent). is_listed_event community q c e ≡ true in
    let rows = newest_first (λ e. e.created_at) (select (is_listed_event community q c) s.events) in
    (
      All-take P q.limit (drop q.offset rows) (
          All-drop P q.offset rows (
            All-newest_first P (λ e. e.created_at) (select (is_listed_event community q c) s.events)
              (All-select P (is_listed_event community q c) s.events (λ e h. h)))),
      length-take q.limit (drop q.offset rows),
    )

-- Each row is counted under one status.
pub counts-length :
    (xs : List InspectionTask)
    → count_where (has_status planned) xs
        + count_where (has_status assigned) xs
        + count_where (has_status in_progress) xs
        + count_where (has_status submitted) xs
        + count_where (has_status completed) xs
      ≡ length xs
counts-length [] = omega arith
counts-length (x ∷ xs) = ground (arith, counts-length xs)
