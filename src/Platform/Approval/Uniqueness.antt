-- ===== src/Platform/Approval/Uniqueness.antt =====
-- The partial unique index of approval_models.py: what the operations of approval_service.py do to
-- the number of open approvals of one conversation, action and fingerprint.
use property_community_agent.Base.{
  Result, err, err, ℕ, ◌≤◌, ◌≡◌, refl, inl, inr, String, true, [], ◌∷◌, str_eq, count_where,
  count_where-append, count_where-find-none, count_where-update_first, eq_iff, ok, arith,
  Option-cases,
}
use property_community_agent.Platform.Approval.{
  ApprovalError, Approval, expired, Approvals, PendingRequest, is_open_for, select_open_approval,
  insert_or_reselect, create_pending, pending_row, get_for_update, has_id, set_status, set_approved,
  set_consumed, approve, consume,
}
use property_community_agent.Platform.Approval.Branches.{consume-ok, after_consume}

-- How many open approvals share the key.
abbrev pub open_count : String → String → ℕ → Approvals → ℕ
open_count conversation action hash = count_where (is_open_for conversation action hash)

-- What the database's index promises.
abbrev pub OpenUnique : Approvals → Type 0
OpenUnique t = (conversation action : String) (hash : ℕ) → open_count conversation action hash t ≤ 1

-- The key of a fresh row is open for one key only.
is_open_for-pending_row :
    (c a : String) (hash ttl now : ℕ) (q : PendingRequest)
    → is_open_for c a hash (pending_row ttl now q) ≡ true
    → (str_eq q.conversation_id c ≡ true) × (str_eq q.action a ≡ true) × (q.params_hash ≡ hash)
unfolding is_open_for
is_open_for-pending_row c a hash ttl now q h = ground arith

insert_or_reselect-OpenUnique :
    (ttl now : ℕ) (q : PendingRequest) (t : Approvals)
    → OpenUnique t
    → OpenUnique
        (insert_or_reselect
          (select_open_approval q.conversation_id q.action q.params_hash t)
          (pending_row ttl now q)
          t).1
unfolding select_open_approval
insert_or_reselect-OpenUnique ttl now q t u c a h =
    elim (Option-cases (select_open_approval q.conversation_id q.action q.params_hash t)) [
      | inr (w, e) ↦ rw e (u c a h)
      | inl e ↦ rw e (
          ground (
            arith,
            u c a h,
            count_where-append (is_open_for c a h) t (pending_row ttl now q ∷ []),
            count_where-find-none (is_open_for q.conversation_id q.action q.params_hash) t e,
            is_open_for-pending_row c a h ttl now q,
            eq_iff q.conversation_id c,
            eq_iff q.action a,
          ))
    ]

-- `create_pending` keeps at most one open approval of a key, whatever other transactions commit
-- between its read and its insert, as long as they keep that too.
pub create_pending-OpenUnique :
    (rivals : Approvals → Approvals) (ttl now : ℕ) (q : PendingRequest) (t : Approvals)
    → OpenUnique t
    → OpenUnique (rivals t)
    → OpenUnique (create_pending rivals ttl now q t).1
unfolding create_pending
create_pending-OpenUnique rivals ttl now q t u v =
    elim (Option-cases (select_open_approval q.conversation_id q.action q.params_hash t)) [
      | inl e ↦ rw e (insert_or_reselect-OpenUnique ttl now q (rivals t) v)
      | inr (w, e) ↦ rw e u
    ]

approve-OpenUnique :
    (i actor now : ℕ) (t : Approvals) → OpenUnique t → OpenUnique (approve i actor now t).1
unfolding approve is_open_for
approve-OpenUnique i actor now t u c a h = elim (Option-cases (get_for_update t i)) [
  | inl e ↦ rw e (u c a h)
  | inr (m, e) ↦ ground (
    arith,
    e,
    u c a h,
    count_where-update_first (is_open_for c a h) (has_id i) (set_approved now) t {m = m},
    count_where-update_first (is_open_for c a h) (has_id i) (set_status expired) t {m = m},
  )
]

consume-OpenUnique :
    (i actor : ℕ) (action : String) (hash now : ℕ) (t : Approvals) {r : Approval} {t' : Approvals}
    → consume i actor action hash now t ≡ ok (r, t')
    → OpenUnique t
    → OpenUnique t'
unfolding is_open_for
consume-OpenUnique i actor action hash now t {r} {t'} h u c a k =
    let (m, found, same_actor, same_action, same_hash, how) =
      consume-ok i actor action hash now t h in
    ground (
      arith,
      found,
      how,
      u c a k,
      count_where-update_first (is_open_for c a k) (has_id i) (set_consumed now) t {m = m},
    )

-- The confirmation and the consumption of an approval keep at most one open approval of a key,
-- whether they succeed or fail.
pub approve-consume-OpenUnique :
    (i actor : ℕ) (action : String) (hash now : ℕ) (t : Approvals)
    → OpenUnique t
    → OpenUnique (approve i actor now t).1
      × OpenUnique (after_consume t (consume i actor action hash now t))
approve-consume-OpenUnique i actor action hash now t u =
    (approve-OpenUnique i actor now t u, go (consume i actor action hash now t) refl)
  where
    go :
        (r : Result ApprovalError (Approval × Approvals))
        → consume i actor action hash now t ≡ r
        → OpenUnique (after_consume t r)
    go (err x) h = u
    go (ok (r, t')) h = consume-OpenUnique i actor action hash now t h u
