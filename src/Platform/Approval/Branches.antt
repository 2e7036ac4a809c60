-- ===== src/Platform/Approval/Branches.antt =====
-- `consume` of approval_service.py, branch by branch.
use property_community_agent.Base.{
  ℕ, ◌≤◌, ◌<◌, ◌≡◌, refl, ◌≢◌, ◌⊎◌, inl, inr, String, Option, none, some, eq_iff, Result, ok, err,
  arith, Option-cases, find-holds, find-update_first,
}
use property_community_agent.Platform.Approval.{
  Approval, Approvals, approved, consumed, pending, ApprovalError, get_for_update, has_id,
  write_row, set_consumed, set_approved, set_status, expired, approve, consume_row, consume,
}

-- The table after a consumption; a refused one is rolled back.
abbrev pub after_consume : Approvals → Result ApprovalError (Approval × Approvals) → Approvals
after_consume t (ok (_, t')) = t'
after_consume t (err _) = t

consume_row-ok :
    (o : Option Approval) (i actor : ℕ) (action : String) (hash now : ℕ) (t : Approvals)
    {r : Approval} {t' : Approvals}
    → consume_row o i actor action hash now t ≡ ok (r, t')
    → (m : Approval) × (o ≡ some m)
      × (m.actor_id ≡ actor)
      × (m.action ≡ action)
      × (m.params_hash ≡ hash)
      × (((m.status ≡ consumed) × (r ≡ m) × (t' ≡ t))
          ⊎ ((m.status ≡ approved)
              × (now ≤ m.expires_at)
              × (r ≡ set_consumed now m)
              × (t' ≡ write_row i (set_consumed now) t)))
consume_row-ok none i actor action hash now t h = cc
consume_row-ok (some m) i actor action hash now t h = (
  m,
  refl,
  ground (arith, eq_iff m.action action),
  ground (arith, eq_iff m.action action),
  ground (arith, eq_iff m.action action),
  ground (arith, eq_iff m.action action),
)

-- Whether `approve` gets as far as the test of the expiry.
pending_cases :
    (m : Approval) (actor : ℕ)
    → ((m.status ≡ pending) × (m.actor_id ≡ actor)) ⊎ ((m.status ≢ pending) ⊎ (m.actor_id ≢ actor))
pending_cases m actor = ground arith

pub consume-ok :
    (i actor : ℕ) (action : String) (hash now : ℕ) (t : Approvals) {r : Approval} {t' : Approvals}
    → consume i actor action hash now t ≡ ok (r, t')
    → (m : Approval) × (get_for_update t i ≡ some m)
      × (m.actor_id ≡ actor)
      × (m.action ≡ action)
      × (m.params_hash ≡ hash)
      × (((m.status ≡ consumed) × (r ≡ m) × (t' ≡ t))
          ⊎ ((m.status ≡ approved)
              × (now ≤ m.expires_at)
              × (r ≡ set_consumed now m)
              × (t' ≡ write_row i (set_consumed now) t)))
unfolding consume
consume-ok i actor action hash now t h =
    consume_row-ok (get_for_update t i) i actor action hash now t h

-- What `approve` does to the table.
pub approve_cases :
    (i actor now : ℕ) (t : Approvals)
    → ((approve i actor now t).1 ≡ t)
      ⊎ ((m : Approval) × (get_for_update t i ≡ some m)
          × (m.status ≡ pending)
          × (m.actor_id ≡ actor)
          × (((now ≤ m.expires_at) × ((approve i actor now t).1 ≡ write_row i (set_approved now) t))
              ⊎ ((m.expires_at < now)
                  × ((approve i actor now t).1 ≡ write_row i (set_status expired) t))))
unfolding approve
approve_cases i actor now t = elim (Option-cases (get_for_update t i)) [
  | inl e ↦ inl (rw e)
  | inr (m, e) ↦ elim (pending_cases m actor) [
    | inl (p, a) ↦ inr (m, e, p, a, ground arith)
    | inr q ↦ inl (ground arith)
  ]
]

-- What `consume` does to the table.
pub consume_cases :
    (i actor : ℕ) (action : String) (hash now : ℕ) (t : Approvals)
    → (after_consume t (consume i actor action hash now t) ≡ t)
      ⊎ ((m : Approval) × (get_for_update t i ≡ some m)
          × (m.actor_id ≡ actor)
          × (m.action ≡ action)
          × (m.params_hash ≡ hash)
          × (m.status ≡ approved)
          × (now ≤ m.expires_at)
          × (after_consume t (consume i actor action hash now t)
              ≡ write_row i (set_consumed now) t))
consume_cases i actor action hash now t = go (consume i actor action hash now t) refl
  where
    go :
        (r : Result ApprovalError (Approval × Approvals))
        → consume i actor action hash now t ≡ r
        → (after_consume t r ≡ t)
          ⊎ ((m : Approval) × (get_for_update t i ≡ some m)
              × (m.actor_id ≡ actor)
              × (m.action ≡ action)
              × (m.params_hash ≡ hash)
              × (m.status ≡ approved)
              × (now ≤ m.expires_at)
              × (after_consume t r ≡ write_row i (set_consumed now) t))
    go (err x) h = inl refl
    go (ok (r, t')) h =
        let (m, f, a, b, c, how) = consume-ok i actor action hash now t h in
        elim how [
          | inl (s, k, l) ↦ inl l
          | inr (s, in_time, k, l) ↦ inr (m, f, a, b, c, s, in_time, l)
        ]

-- An approval that was used is consumed, and is used again without a change of the table.
pub consume_spent :
    (i actor : ℕ) (action : String) (hash now now2 : ℕ) (t : Approvals) {r : Approval}
    {t' : Approvals}
    → consume i actor action hash now t ≡ ok (r, t')
    → (r' : Approval) × (consume i actor action hash now2 t' ≡ ok (r', t'))
unfolding consume
consume_spent i actor action hash now now2 t {r} {t'} h =
    let (m, found, a, b, c, how) = consume-ok i actor action hash now t h in
    elim how [
      | inl (s, k, l) ↦ (m, ground (arith, eq_iff m.action action))
      | inr (s, in_time, k, l) ↦ (
        set_consumed now m,
        ground (
          arith,
          eq_iff m.action action,
          find-holds (has_id i) t {x = m} found,
          find-update_first (has_id i) (set_consumed now) t {m = m} found,
        ),
      )
    ]
