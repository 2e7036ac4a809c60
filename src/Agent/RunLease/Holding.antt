-- ===== src/Agent/RunLease/Holding.antt =====
-- What a sequence of requests to run_lease.py keeps of the row of a conversation.
use property_community_agent.Base.{
  ℕ, ◌+◌, ◌-◌, ◌≤◌, ◌<◌, ◌≡◌, refl, sym, subst, ◌⊎◌, inl, inr, String, Bool, true, false, none,
  some, List, [], ◌∷◌, ◌++◌, eq_iff, eq_refl, any, find, update_first, update_where, count_where,
  Result, ok, err, arith, Bool-cases, Option-cases, Result-cases, count_where-append,
  count_where-find-none, count_where-update_where, count_where-update_first_same, find-holds,
  find-count_where, All-rewrite, All, All-append, All-update_first_same, All-no_match,
  All-update_only, All-find,
}
use property_community_agent.Platform.Tables.{RunLease}
use property_community_agent.Platform.Outbox.{microseconds_per_second}
use property_community_agent.Platform.ConfirmationPort.{Lease, lease_matches}
use property_community_agent.Agent.RunLease.{
  LeaseError, Leases, is_thread, lease_of, take_over, first_row, acquire, extend, renew, is_owned,
  release,
}

-- What other turns may ask for, with the clock's reading.
pub data LeaseRequest : Type 0 where
  acquire_lease : ℕ → String → ℕ → ℕ → LeaseRequest
  renew_lease : ℕ → Lease → ℕ → LeaseRequest
  release_lease : String → ℕ → ℕ → LeaseRequest

abbrev pub after_lease : Leases → Result LeaseError (Lease × Leases) → Leases
after_lease t (ok (_, t')) = t'
after_lease t (err _) = t

abbrev pub handle_request : LeaseRequest → Leases → Leases
handle_request (acquire_lease ttl thread run now) t = after_lease t (acquire ttl thread run now t)
handle_request (renew_lease ttl l now) t = after_lease t (renew ttl l now t)
handle_request (release_lease thread run now) t = release thread run now t

abbrev pub handle_requests : List LeaseRequest → Leases → Leases
handle_requests [] t = t
handle_requests (q ∷ qs) t = handle_requests qs (handle_request q t)

-- The thread has its one row, and the row's fence is at least this.
abbrev pub Held : String → ℕ → Leases → Type 0
Held thread fence t =
    (count_where (is_thread thread) t ≡ 1)
    × All (λ r. is_thread thread r ≡ true → fence ≤ r.fence) t

pub acquire-ok :
    (ttl : ℕ) (thread : String) (run now : ℕ) (t : Leases) {l : Lease} {t' : Leases}
    → acquire ttl thread run now t ≡ ok (l, t')
    → ((find (is_thread thread) t ≡ none)
        × (l ≡ lease_of (first_row thread run (now + ttl)))
        × (t' ≡ t ++ first_row thread run (now + ttl) ∷ []))
      ⊎ ((r : RunLease) × (find (is_thread thread) t ≡ some r)
          × (r.lease_until < now)
          × (l ≡ lease_of (take_over run (now + ttl) r))
          × (t' ≡ update_first (is_thread thread) (take_over run (now + ttl)) t))
unfolding acquire
acquire-ok ttl thread run now t {l} {t'} h = elim (Option-cases (find (is_thread thread) t)) [
  | inl e ↦ inl (e, ground arith, ground arith)
  | inr (r, e) ↦ inr (r, e, ground arith, ground arith, ground arith)
]

other_row-Held :
    (thread : String) (fence : ℕ) (t : Leases) (r : RunLease)
    → is_thread thread r ≡ false
    → Held thread fence t
    → Held thread fence (t ++ r ∷ [])
other_row-Held thread fence t r e (n, h) = (
  ground (arith, count_where-append (is_thread thread) t (r ∷ [])),
  All-append (λ x. is_thread thread x ≡ true → fence ≤ x.fence) t (r ∷ []) h
      ((λ d. ground arith), tt),
)

insert-Held :
    (thread : String) (run until : ℕ) (t : Leases)
    → find (is_thread thread) t ≡ none
    → Held thread 1 (t ++ first_row thread run until ∷ [])
unfolding is_thread
insert-Held thread run until t e =
    let none_there = count_where-find-none (is_thread thread) t e in
    (
      ground (
        arith,
        count_where-append (is_thread thread) t (first_row thread run until ∷ []),
        eq_refl thread,
      ),
      All-append (λ r. is_thread thread r ≡ true → 1 ≤ r.fence) t (first_row thread run until ∷ [])
          (All-no_match (λ r. 1 ≤ r.fence) (is_thread thread) t none_there)
          ((λ d. omega arith), tt),
    )

update-Held :
    (thread : String) (run until : ℕ) (t : Leases) {r : RunLease}
    → find (is_thread thread) t ≡ some r
    → count_where (is_thread thread) t ≤ 1
    → Held thread (r.fence + 1) (update_first (is_thread thread) (take_over run until) t)
unfolding is_thread
update-Held thread run until t {r} e unique =
    let holds = find-holds (is_thread thread) t e in
    let some_there = find-count_where (is_thread thread) (is_thread thread) r t e holds in
    let one : count_where (is_thread thread) t ≡ 1 = omega (arith, some_there, unique) in
    (
      ground (
        arith,
        count_where-update_first_same (is_thread thread) (is_thread thread) (take_over run until) t
            (λ x. refl),
      ),
      All-update_only (λ x. r.fence + 1 ≤ x.fence) (is_thread thread) (take_over run until) t e one
          (omega arith),
    )

-- A new lease's fence is the row's, and is past every fence that the row had.
pub acquire-Held :
    (ttl : ℕ) (thread : String) (run now : ℕ) (t : Leases) {l : Lease} {t' : Leases}
    → acquire ttl thread run now t ≡ ok (l, t')
    → count_where (is_thread thread) t ≤ 1
    → Held thread l.fence t' × (l.thread_id ≡ thread)
unfolding is_thread
acquire-Held ttl thread run now t {l} {t'} h unique =
    elim (acquire-ok ttl thread run now t {l = l} {t' = t'} h) [
      | inl (e, lease, rows) ↦ (
        subst (λ (x : Lease). Held thread x.fence t') (sym lease)
            (subst (Held thread 1) (sym rows) (insert-Held thread run (now + ttl) t e)),
        ground arith,
      )
      | inr (r, e, late, lease, rows) ↦ (
        subst (λ (x : Lease). Held thread x.fence t') (sym lease)
            (subst (Held thread (r.fence + 1)) (sym rows)
              (update-Held thread run (now + ttl) t e unique)),
        ground (arith, find-holds (is_thread thread) t e, eq_iff r.thread_id thread),
      )
    ]

-- Taking over a held row raises the fence.
pub acquire-above :
    (ttl : ℕ) (thread : String) (run now fence : ℕ) (t : Leases) {l : Lease} {t' : Leases}
    → acquire ttl thread run now t ≡ ok (l, t')
    → Held thread fence t
    → fence < l.fence
acquire-above ttl thread run now fence t {l} {t'} h (n, held) =
    elim (acquire-ok ttl thread run now t {l = l} {t' = t'} h) [
      | inl (e, lease, rows) ↦ ground (arith, count_where-find-none (is_thread thread) t e)
      | inr (r, e, late, lease, rows) ↦
          let low =
            All-find (λ x. is_thread thread x ≡ true → fence ≤ x.fence) (is_thread thread) t held e
              (find-holds (is_thread thread) t e) in
          ground arith
    ]

-- Every request keeps the row, and lets its fence only grow.
rewrite_all-Held :
    (thread : String) (fence : ℕ) (q : RunLease → Bool) (until : ℕ) (t : Leases)
    → Held thread fence t
    → Held thread fence (update_where q (extend until) t)
unfolding is_thread
rewrite_all-Held thread fence q until t (n, held) = (
  ground (arith, count_where-update_where (is_thread thread) q (extend until) t (λ x. refl)),
  All-rewrite (λ x. is_thread thread x ≡ true → fence ≤ x.fence) q (extend until) t (λ x k. k) held,
)

acquire_other-Held :
    (ttl : ℕ) (other thread : String) (run now fence : ℕ) (t : Leases) {l : Lease} {t' : Leases}
    → acquire ttl other run now t ≡ ok (l, t')
    → Held thread fence t
    → Held thread fence t'
unfolding is_thread
acquire_other-Held ttl other thread run now fence t {l} {t'} h (n, held) =
    elim (acquire-ok ttl other run now t {l = l} {t' = t'} h) [
      | inl (e, lease, rows) ↦
          let none_there = count_where-find-none (is_thread other) t e in
          subst (Held thread fence) (sym rows) (
            other_row-Held thread fence t (first_row other run (now + ttl))
              (ground (arith, none_there, eq_iff other thread)) (n, held))
      | inr (r, e, late, lease, rows) ↦ subst (Held thread fence) (sym rows) (
        ground (
          arith,
          count_where-update_first_same (is_thread thread) (is_thread other)
              (take_over run (now + ttl)) t (λ x. refl),
        ),
        All-update_first_same (λ x. is_thread thread x ≡ true → fence ≤ x.fence) (is_thread other)
            (take_over run (now + ttl)) t (λ x k d. omega (arith, k d)) held,
      )
    ]

handle_request-Held :
    (q : LeaseRequest) (thread : String) (fence : ℕ) (t : Leases)
    → Held thread fence t
    → Held thread fence (handle_request q t)
unfolding renew release
handle_request-Held (acquire_lease ttl other run now) thread fence t held =
    elim (Result-cases (acquire ttl other run now t)) [
      | inr (x, e) ↦ subst (Held thread fence) (ground arith) held
      | inl ((l, t'), e) ↦
          subst (Held thread fence) (ground arith)
            (acquire_other-Held ttl other thread run now fence t {l = l} {t' = t'} e held)
    ]
handle_request-Held (renew_lease ttl l now) thread fence t held =
    elim (Bool-cases (any (lease_matches l now) t)) [
      | inr b ↦ subst (Held thread fence) (ground arith) held
      | inl b ↦
          subst (Held thread fence) (ground arith)
            (rewrite_all-Held thread fence (lease_matches l now) (now + ttl) t held)
    ]
handle_request-Held (release_lease other run now) thread fence t held =
    rewrite_all-Held thread fence (is_owned other run) (now - microseconds_per_second) t held

pub handle_requests-Held :
    (qs : List LeaseRequest) (thread : String) (fence : ℕ) (t : Leases)
    → Held thread fence t
    → Held thread fence (handle_requests qs t)
handle_requests-Held [] thread fence t held = held
handle_requests-Held (q ∷ qs) thread fence t held =
    handle_requests-Held qs thread fence (handle_request q t)
      (handle_request-Held q thread fence t held)
