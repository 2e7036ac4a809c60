-- ===== src/Repair/AutoAssignment/Candidates.antt =====
-- Which worker auto_assignment.py chooses.
use property_community_agent.Base.{
  ℕ, ◌≤◌, ◌≡◌, refl, Bool, true, Option, none, some, List, [], ◌∷◌, if◌then◌else◌, arith, inl, inr,
  Bool-cases, All, All-select, select, subst, sym,
}
use property_community_agent.Platform.Tables.{User}
use property_community_agent.Repair.WorkOrder.{WorkOrder}
use property_community_agent.Repair.Repository.{RepairDb}
use property_community_agent.Repair.AutoAssignment.{
  workload, is_eligible, goes_first, choose, first_of, select_candidate,
}

-- Nobody in the list has fewer open orders.
abbrev pub LeastLoaded : RepairDb → ℕ → List User → Type 0
LeastLoaded s i us = All (λ (v : User). workload i s ≤ workload v.id s) us

lighter :
    (s : RepairDb) (i j : ℕ) (us : List User)
    → workload i s ≤ workload j s
    → LeastLoaded s j us
    → LeastLoaded s i us
lighter s i j [] h k = tt
lighter s i j (u ∷ us) h (k, ks) = (omega (arith, h, k), lighter s i j us h ks)

choose-LeastLoaded :
    (s : RepairDb) (x v : User) (us : List User)
    → LeastLoaded s v.id us
    → LeastLoaded s (choose s x (some v)).id (x ∷ us)
unfolding goes_first
choose-LeastLoaded s x v us h = elim (Bool-cases (goes_first s x v)) [
  | inl b ↦
      subst (λ (c : Bool). LeastLoaded s (if c then x else v).id (x ∷ us)) (sym b)
        (omega arith, lighter s x.id v.id us (ground arith) h)
  | inr b ↦
      subst (λ (c : Bool). LeastLoaded s (if c then x else v).id (x ∷ us)) (sym b) (ground arith, h)
]

first_of-LeastLoaded :
    (s : RepairDb) (us : List User) {u : User} → first_of s us ≡ some u → LeastLoaded s u.id us
unfolding first_of
first_of-LeastLoaded s [] h = tt
first_of-LeastLoaded s (x ∷ []) {u} h =
    let e : x ≡ u = ground arith in
    subst (λ (v : User). LeastLoaded s v.id (x ∷ [])) e (omega arith, tt)
first_of-LeastLoaded s (x ∷ y ∷ us) {u} h =
    let v = choose s y (first_of s us) in
    let e : choose s x (some v) ≡ u = ground arith in
    subst (λ (z : User). LeastLoaded s z.id (x ∷ y ∷ us)) e
      (choose-LeastLoaded s x v (y ∷ us) (first_of-LeastLoaded s (y ∷ us) {u = v} refl))

choose-All :
    (P : User → Type 0) (s : RepairDb) (x : User) (o : Option User)
    → P x
    → ((v : User) → o ≡ some v → P v)
    → P (choose s x o)
choose-All P s x none h k = h
choose-All P s x (some v) h k = elim (Bool-cases (goes_first s x v)) [
  | inl b ↦ subst (λ (c : Bool). P (if c then x else v)) (sym b) h
  | inr b ↦ subst (λ (c : Bool). P (if c then x else v)) (sym b) (k v refl)
]

first_of-All :
    (P : User → Type 0) (s : RepairDb) (us : List User) {u : User}
    → All P us
    → first_of s us ≡ some u
    → P u
unfolding first_of
first_of-All P s [] h e = cc
first_of-All P s (x ∷ us) {u} (h, hs) e =
    subst P (ground arith)
      (choose-All P s x (first_of s us) h (λ v d. first_of-All P s us {u = v} hs d))

-- The worker that is chosen is eligible: an active repair worker of the order's community whose role
-- holds now for the house's building; and no eligible worker has fewer open orders.
pub select_candidate-LeastLoaded :
    (now : ℕ) (w : WorkOrder) (s : RepairDb) {u : User}
    → select_candidate now w s ≡ some u
    → (is_eligible now w s u ≡ true)
      × LeastLoaded s u.id (select (is_eligible now w s) s.platform.users)
unfolding select_candidate
select_candidate-LeastLoaded now w s {u} h = (
  first_of-All (λ (v : User). is_eligible now w s v ≡ true) s
      (select (is_eligible now w s) s.platform.users) {u = u}
      (All-select (λ (v : User). is_eligible now w s v ≡ true) (is_eligible now w s)
        s.platform.users (λ v d. d))
      h,
  first_of-LeastLoaded s (select (is_eligible now w s) s.platform.users) {u = u} h,
)
