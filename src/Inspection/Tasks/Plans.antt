-- ===== src/Inspection/Tasks/Plans.antt =====
-- Plans that do not conflict: what `_validate_plan_conflict` of inspection/application/service.py keeps
-- of the table of tasks.
use property_community_agent.Base.{
  ◌≤◌, ◌≡◌, refl, sym, subst, inl, inr, Bool, true, false, ◌&&◌, none, List, [], ◌∷◌, ◌++◌, find,
  select, update_where, leb, ◌==◌, if◌then◌else◌, Text, ok, arith, All, All-always, All-weaken,
  Bool-cases, Option-cases,
}
use property_community_agent.Inspection.Enums.{status_index}
use property_community_agent.Inspection.Task.{InspectionTask}
use property_community_agent.Inspection.Commands.{RequestContext, CreateTask}
use property_community_agent.Inspection.Repository.{InspectionDb, is_active, find_active_tasks}
use property_community_agent.Inspection.Service.{Environment}
use property_community_agent.Inspection.Tasks.{
  time_overlaps, shares_point, clean_points, conflicts_with, is_timed, validate_plan_conflict,
  new_task,
}

-- Planned, assigned or under way.
abbrev pub is_open : InspectionTask → Bool
is_open t = leb (status_index t.status) 2

-- Two tasks of a community that are not handed in yet and have a time share a point at one time.
abbrev pub clash : InspectionTask → InspectionTask → Bool
clash x y =
    is_open x
    && (is_open y
        && (is_timed x.planned_at x.due_at
            && (is_timed y.planned_at y.due_at
                && (x.community_id == y.community_id
                    && (shares_point y.route_points x.route_points
                        && time_overlaps y.planned_at y.due_at x.planned_at x.due_at)))))

-- No row clashes with a later one.
abbrev pub ConflictFree : List InspectionTask → Type 0
ConflictFree [] = Unit
ConflictFree (x ∷ xs) = All (λ y. clash x y ≡ false) xs × ConflictFree xs

-- The same plan, and no longer open if it was not.
pub record Weaker (x' x : InspectionTask) : Type 0 where
  pub same_community : x'.community_id ≡ x.community_id
  pub same_points : x'.route_points ≡ x.route_points
  pub same_planned : x'.planned_at ≡ x.planned_at
  pub same_due : x'.due_at ≡ x.due_at
  pub forward : status_index x.status ≤ status_index x'.status

Weaker-refl : (x : InspectionTask) → Weaker x x
Weaker-refl x = record {
  same_community = refl;
  same_points = refl;
  same_planned = refl;
  same_due = refl;
  forward = omega arith;
}

clash-Weaker :
    {x x' y y' : InspectionTask}
    → Weaker x' x
    → Weaker y' y
    → clash x y ≡ false
    → clash x' y' ≡ false
clash-Weaker {x} {x'} {y} {y'} v w h = elim (Bool-cases (clash x' y')) [
  | inr e ↦ e
  | inl e ↦ ground arith
]

module _ (q : InspectionTask → Bool) (f : InspectionTask → InspectionTask) where
  abbrev rewritten : InspectionTask → InspectionTask
  rewritten x = if q x then f x else x

  rewritten-Weaker : (x : InspectionTask) → (q x ≡ true → Weaker (f x) x) → Weaker (rewritten x) x
  rewritten-Weaker x w = elim (Bool-cases (q x)) [
    | inl e ↦ subst (λ (b : Bool). Weaker (if b then f x else x) x) (sym e) (w e)
    | inr e ↦ subst (λ (b : Bool). Weaker (if b then f x else x) x) (sym e) (Weaker-refl x)
  ]

  All-clash :
      (x x' : InspectionTask) (ys : List InspectionTask)
      → Weaker x' x
      → All (λ y. q y ≡ true → Weaker (f y) y) ys
      → All (λ y. clash x y ≡ false) ys
      → All (λ y. clash x' y ≡ false) (update_where q f ys)
  All-clash x x' [] v ws hs = tt
  All-clash x x' (y ∷ ys) v (w, ws) (h, hs) =
      (clash-Weaker {x = x} {y = y} v (rewritten-Weaker y w) h, All-clash x x' ys v ws hs)

  -- A write that weakens the rows that it rewrites brings no conflict.
  pub ConflictFree-update_where :
      (xs : List InspectionTask)
      → All (λ x. q x ≡ true → Weaker (f x) x) xs
      → ConflictFree xs
      → ConflictFree (update_where q f xs)
  ConflictFree-update_where [] ws h = tt
  ConflictFree-update_where (x ∷ xs) (w, ws) (h, hs) =
      (All-clash x (rewritten x) xs (rewritten-Weaker x w) ws h, ConflictFree-update_where xs ws hs)

All-clash_append :
    (x new : InspectionTask) (ys : List InspectionTask)
    → All (λ y. clash x y ≡ false) ys
    → clash x new ≡ false
    → All (λ y. clash x y ≡ false) (ys ++ new ∷ [])
All-clash_append x new [] hs h = (h, tt)
All-clash_append x new (y ∷ ys) (k, ks) h = (k, All-clash_append x new ys ks h)

pub ConflictFree-append :
    (new : InspectionTask) (xs : List InspectionTask)
    → All (λ x. clash x new ≡ false) xs
    → ConflictFree xs
    → ConflictFree (xs ++ new ∷ [])
ConflictFree-append new [] hs h = (tt, tt)
ConflictFree-append new (x ∷ xs) (k, ks) (h, hs) =
    (All-clash_append x new xs h k, ConflictFree-append new xs ks hs)

find-select-none :
    (p q : InspectionTask → Bool) (xs : List InspectionTask)
    → find p (select q xs) ≡ none
    → All (λ x. q x ≡ true → p x ≡ false) xs
find-select-none p q [] h = tt
find-select-none p q (x ∷ xs) h = elim (Bool-cases (q x)) [
  | inl e ↦ elim (Bool-cases (p x)) [
    | inl d ↦ ground arith
    | inr d ↦ (λ _. d, find-select-none p q xs (ground arith))
  ]
  | inr e ↦ (λ d. cc, find-select-none p q xs (ground arith))
]

-- A plan that passes the check clashes with no task of the table.
pub validated_no_clash :
    (env : Environment) (k : CreateTask) (c : RequestContext) (key : Text) (s : InspectionDb)
    {p : Unit {0} × InspectionDb}
    → validate_plan_conflict k c s ≡ ok p
    → (p.1 ≡ s) × All (λ x. clash x (new_task env k c key) ≡ false) s.tasks
unfolding validate_plan_conflict find_active_tasks
validated_no_clash env k c key s {p} h = elim (Bool-cases (is_timed k.planned_at k.due_at)) [
  | inr b ↦ (
    ground arith,
    All-always (λ x. clash x (new_task env k c key) ≡ false) s.tasks (λ x. ground arith),
  )
  | inl b ↦
      let points = clean_points k.route_points in
      elim (Option-cases (find (conflicts_with points k) (find_active_tasks c.community_id s))) [
        | inr (t, e) ↦ ground arith
        | inl e ↦ (
          ground arith,
          All-weaken (λ x. is_active c.community_id x ≡ true → conflicts_with points k x ≡ false)
              (λ x. clash x (new_task env k c key) ≡ false) s.tasks (λ x u. ground (arith, u))
              (find-select-none (conflicts_with points k) (is_active c.community_id) s.tasks
                (ground arith)),
        )
      ]
]
