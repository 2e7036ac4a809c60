-- ===== src/Platform/Approval/Lifecycle.antt =====
-- The life of an approval under any sequence of requests to approval_service.py.
use property_community_agent.Base.{
  ℕ, ◌+◌, ◌≤◌, ◌≡◌, refl, sym, Option, some, List, [], ◌∷◌, Memᴰ, arith, subst,
}
use property_community_agent.Platform.Approval.{
  Approval, ApprovalStatus, pending, rejected, expired, Approvals, approved, consumed,
  get_for_update,
}
use property_community_agent.Platform.Approval.Changes.{
  Request, create, confirm, use_up, handle, handle_all, status_of, Change, same, confirmed, lapsed,
  used, get_for_update-create, approve-ChangesTo, consume-ChangesTo,
}

pub handle-Change :
    (i : ℕ) (q : Request) (t : Approvals) {m : Approval}
    → get_for_update t i ≡ some m
    → (m' : Approval) × (get_for_update (handle q t) i ≡ some m') × Change i q m m'
unfolding handle
handle-Change i (create ttl now q) t {m} e = (m, get_for_update-create i ttl now q t e, same refl)
handle-Change i (confirm j actor now) t e = approve-ChangesTo i j actor now t e
handle-Change i (use_up j actor action hash now) t e =
    consume-ChangesTo i j actor action hash now t e

-- The approval was used within its validity by a request with its actor, action and fingerprint.
abbrev pub WasUsed : ℕ → Approval → List Request → Type 0
WasUsed i m qs =
    (now : ℕ) × (now ≤ m.expires_at) × Memᴰ (use_up i m.actor_id m.action m.params_hash now) qs

abbrev pub WasConfirmed : ℕ → Approval → List Request → Type 0
WasConfirmed i m qs = (now : ℕ) × (now ≤ m.expires_at) × Memᴰ (confirm i m.actor_id now) qs

-- What the end status shows of the requests in between.
abbrev Explained : ℕ → ApprovalStatus → Approval → List Request → Type 0
Explained i pending m qs = WasConfirmed i m qs × WasUsed i m qs
Explained i approved m qs = WasUsed i m qs
Explained i consumed m qs = Unit
Explained i rejected m qs = ⊥
Explained i expired m qs = ⊥

Explained-cons :
    (i : ℕ) (s : ApprovalStatus) (m : Approval) (q : Request) (qs : List Request)
    → Explained i s m qs
    → Explained i s m (q ∷ qs)
Explained-cons i pending m q qs ((c, cl, cm), (u, ul, um)) =
    ((c, cl, Memᴰ.tail cm), (u, ul, Memᴰ.tail um))
Explained-cons i approved m q qs (u, ul, um) = (u, ul, Memᴰ.tail um)
Explained-cons i consumed m q qs x = tt
Explained-cons i rejected m q qs x = x
Explained-cons i expired m q qs x = x

Explained-Change :
    (i : ℕ) (q : Request) (qs : List Request) (m m' : Approval)
    → Change i q m m'
    → Explained i m'.status m' qs
    → Explained i m.status m (q ∷ qs)
Explained-Change i q qs m m' (same k) x = Explained-cons i m.status m q qs (rw k at x)
Explained-Change i q qs m m' (confirmed now fits p in_time k) x =
    let (u, ul, um) = subst (λ (n : Approval). Explained i n.status n qs) k x in
    subst (λ (s : ApprovalStatus). Explained i s m (q ∷ qs)) (sym p)
      ((now, in_time, Memᴰ.head (sym fits)), (u, ul, Memᴰ.tail um))
Explained-Change i q qs m m' (lapsed now fits p late k) x =
    absurd (subst (λ (n : Approval). Explained i n.status n qs) k x)
Explained-Change i q qs m m' (used now fits p in_time k) x =
    subst (λ (s : ApprovalStatus). Explained i s m (q ∷ qs)) (sym p)
      (now, in_time, Memᴰ.head (sym fits))

same_row : {o : Option Approval} {m m' : Approval} → o ≡ some m → o ≡ some m' → m' ≡ m
same_row e f = cc

handle_all-Explained :
    (i : ℕ) (qs : List Request) (t : Approvals) {m m' : Approval}
    → get_for_update t i ≡ some m
    → get_for_update (handle_all qs t) i ≡ some m'
    → m'.status ≡ consumed
    → Explained i m.status m qs
unfolding handle_all
handle_all-Explained i [] t {m} {m'} e f c =
    subst (λ (n : Approval). Explained i n.status n []) (same_row e f)
      (subst (λ (s : ApprovalStatus). Explained i s m' []) (sym c) tt)
handle_all-Explained i (q ∷ qs) t {m} {m'} e f c =
    let (n, g, change) = handle-Change i q t e in
    Explained-Change i q qs m n change (handle_all-Explained i qs (handle q t) g f c)

-- Whatever requests are handled, a pending approval is consumed only if its own actor confirmed it
-- in time and a caller with its actor, action and fingerprint used it in time.
pub consumed_needs_confirmation :
    (i : ℕ) (qs : List Request) (t : Approvals) {m m' : Approval}
    → get_for_update t i ≡ some m
    → m.status ≡ pending
    → get_for_update (handle_all qs t) i ≡ some m'
    → m'.status ≡ consumed
    → WasConfirmed i m qs × WasUsed i m qs
consumed_needs_confirmation i qs t {m} {m'} e p f c =
    subst (λ (s : ApprovalStatus). Explained i s m qs) p (handle_all-Explained i qs t e f c)

-- A request that turns the approval `i` into a consumed one: a business write goes with it.
abbrev pub consumes : ℕ → Request → Approvals → ℕ
consumes i q t = elim (status_of i t) [
  | some approved ↦ elim (status_of i (handle q t)) [ some consumed ↦ 1 | _ ↦ 0 ]
  | _ ↦ 0
]

abbrev pub count_consumed : ℕ → List Request → Approvals → ℕ
count_consumed i [] t = 0
count_consumed i (q ∷ qs) t = consumes i q t + count_consumed i qs (handle q t)

abbrev room : Option ApprovalStatus → ℕ
room (some consumed) = 0
room _ = 1

consumes-le : (i : ℕ) (q : Request) (t : Approvals) → consumes i q t ≤ 1
consumes-le i q t = ground arith
