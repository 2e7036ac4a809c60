-- ===== src/Platform/Approval/Changes.antt =====
-- How one request to approval_service.py changes an approval.
use property_community_agent.Base.{
  ℕ, ◌≤◌, ◌<◌, ◌≡◌, refl, inl, inr, String, Option, none, some, List, [], ◌∷◌, ◌==◌, if◌then◌else◌,
  arith, find-update_first, find-update_first_ne, find-append_some, find-holds, ==_iff, Bool-cases,
  subst, ◌∙◌,
}
use property_community_agent.Platform.Approval.{
  Approval, ApprovalStatus, pending, expired, Approvals, approved, PendingRequest, create_pending,
  pending_row, get_for_update, has_id, write_row, set_status, set_approved, set_consumed, approve,
  consume,
}
use property_community_agent.Platform.Approval.Branches.{
  after_consume, consume_cases, approve_cases,
}

-- One request, with the clock's reading.
pub data Request : Type 0 where
  create : ℕ → ℕ → PendingRequest → Request
  confirm : ℕ → ℕ → ℕ → Request
  use_up : ℕ → ℕ → String → ℕ → ℕ → Request

unfoldable pub handle : Request → Approvals → Approvals
handle (create ttl now q) t = (create_pending (λ u. u) ttl now q t).1
handle (confirm i actor now) t = (approve i actor now t).1
handle (use_up i actor action hash now) t = after_consume t (consume i actor action hash now t)

unfoldable pub handle_all : List Request → Approvals → Approvals
handle_all [] t = t
handle_all (q ∷ qs) t = handle_all qs (handle q t)

-- The status of an approval, where it is in the table.
abbrev pub status_of : ℕ → Approvals → Option ApprovalStatus
status_of i t = elim (get_for_update t i) [ none ↦ none | some m ↦ some m.status ]

-- The diagram of the module's docstring, with what each move needs: how request `q` may change
-- the approval `i` from `m` to `m'`.
pub data Change (i : ℕ) (q : Request) (m : Approval) (m' : Approval) : Type 0 where
  same : m' ≡ m → Change i q m m'
  confirmed :
      (now : ℕ)
      → q ≡ confirm i m.actor_id now
      → m.status ≡ pending
      → now ≤ m.expires_at
      → m' ≡ set_approved now m
      → Change i q m m'
  lapsed :
      (now : ℕ)
      → q ≡ confirm i m.actor_id now
      → m.status ≡ pending
      → m.expires_at < now
      → m' ≡ set_status expired m
      → Change i q m m'
  used :
      (now : ℕ)
      → q ≡ use_up i m.actor_id m.action m.params_hash now
      → m.status ≡ approved
      → now ≤ m.expires_at
      → m' ≡ set_consumed now m
      → Change i q m m'

-- A write of the fetched row `j`, seen by a fetch of `i`.
get_for_update-write_row :
    (i j : ℕ) (f : Approval → Approval) (t : Approvals) {n : Approval}
    → get_for_update t j ≡ some n
    → (f n).id ≡ n.id
    → get_for_update (write_row j f t) i ≡ (if j == i then some (f n) else get_for_update t i)
get_for_update-write_row i j f t {n} e k = ground (
  arith,
  find-holds (has_id j) t {x = n},
  find-update_first (has_id j) f t {m = n},
  find-update_first_ne (has_id i) (has_id j) f t {m = n},
)

pub get_for_update-create :
    (i ttl now : ℕ) (q : PendingRequest) (t : Approvals) {m : Approval}
    → get_for_update t i ≡ some m
    → get_for_update (create_pending (λ u. u) ttl now q t).1 i ≡ some m
unfolding create_pending
get_for_update-create i ttl now q t {m} e =
    ground (arith, find-append_some (has_id i) t (pending_row ttl now q ∷ []) {m = m})

module _ (i : ℕ) (q : Request) (t : Approvals) {m : Approval}
    (e : get_for_update t i ≡ some m) where
  -- How the approval `i` has changed when the table has become `t'`.
  abbrev pub ChangesTo : Approvals → Type 0
  ChangesTo t' = (m' : Approval) × (get_for_update t' i ≡ some m') × Change i q m m'

  write_row-ChangesTo :
      (j : ℕ) (f : Approval → Approval) {n : Approval}
      → get_for_update t j ≡ some n
      → (f n).id ≡ n.id
      → (j ≡ i → Change i q n (f n))
      → ChangesTo (write_row j f t)
  write_row-ChangesTo j f {n} fetched k change = elim (Bool-cases (j == i)) [
    | inl y ↦ (
      f n,
      get_for_update-write_row i j f t fetched k ∙ rw y,
      subst (λ (x : Approval). Change i q x (f n)) (ground (arith, e, fetched))
          (change ((==_iff j i).0 y)),
    )
    | inr no_match ↦ (m, get_for_update-write_row i j f t fetched k ∙ rw no_match e, same refl)
  ]

  unchanged-ChangesTo : {t' : Approvals} → t' ≡ t → ChangesTo t'
  unchanged-ChangesTo k = (m, rw k e, same refl)

pub approve-ChangesTo :
    (i j actor now : ℕ) (t : Approvals) {m : Approval} (e : get_for_update t i ≡ some m)
    → ChangesTo i (confirm j actor now) t e (approve j actor now t).1
approve-ChangesTo i j actor now t {m} e = elim (approve_cases j actor now t) [
  | inl k ↦ unchanged-ChangesTo i _ t e k
  | inr (n, fetched, p, a, inl (in_time, k)) ↦ rw k (
      write_row-ChangesTo i (confirm j actor now) t e j (set_approved now) fetched refl
        (λ (same_id : j ≡ i). confirmed now (rw (same_id, a)) p in_time refl))
  | inr (n, fetched, p, a, inr (late, k)) ↦ rw k (
      write_row-ChangesTo i (confirm j actor now) t e j (set_status expired) fetched refl
        (λ (same_id : j ≡ i). lapsed now (rw (same_id, a)) p late refl))
]

pub consume-ChangesTo :
    (i j actor : ℕ) (action : String) (hash now : ℕ) (t : Approvals) {m : Approval}
    (e : get_for_update t i ≡ some m)
    → ChangesTo i
        (use_up j actor action hash now)
        t
        e
        (after_consume t (consume j actor action hash now t))
consume-ChangesTo i j actor action hash now t {m} e =
    elim (consume_cases j actor action hash now t) [
      | inl k ↦ unchanged-ChangesTo i _ t e k
      | inr (n, fetched, a, b, c, s, in_time, k) ↦ rw k (
          write_row-ChangesTo i _ t e j (set_consumed now) fetched refl
            (λ (same_id : j ≡ i). used now (rw (same_id, a, b, c)) s in_time refl))
    ]
