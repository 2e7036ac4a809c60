-- ===== src/Platform/LoginGuard/Locking.antt =====
-- When login_guard.py locks a pair of user name and address, and for how long.
use property_community_agent.Base.{
  ℕ, suc, ◌+◌, ◌≤◌, ◌<◌, ◌≡◌, refl, true, none, some, List, [], ◌∷◌, ◌++◌, leb, find, update_first,
  Text, text_eq_refl, ok, err, arith, Option-cases, inl, inr, find-holds, find-update_first,
  find-append_none, length, is_some, All, subst, sym, ap, ◌∙◌, ◌⊎◌, ◌↔◌,
}
use property_community_agent.Platform.LoginGuard.{
  LoginGuard, login_locked, LoginAttempt, Attempts, is_pair, find_attempt, fresh_attempt,
  clear_lock, reaches_limit, fail_attempt, normalize_username, ensure_allowed, record_failure,
}

-- A run of failures that all fall in the window that the first of them opens.
failures : LoginGuard → List ℕ → LoginAttempt → LoginAttempt
failures g [] a = a
failures g (now ∷ later) a = failures g later (fail_attempt g now a)

-- A row is locked exactly when its count has reached the limit.
abbrev IsConsistent : LoginGuard → LoginAttempt → Type 0
IsConsistent g a = is_some a.locked_until ≡ leb g.failure_limit a.failure_count

abbrev InWindow : LoginGuard → LoginAttempt → ℕ → Type 0
InWindow g a now = now < a.window_started_at + g.window

fail_attempt-InWindow :
    (g : LoginGuard) (now : ℕ) (a : LoginAttempt)
    → InWindow g a now
    → IsConsistent g a
    → ((fail_attempt g now a).failure_count ≡ a.failure_count + 1)
      × ((fail_attempt g now a).window_started_at ≡ a.window_started_at)
      × IsConsistent g (fail_attempt g now a)
unfolding fail_attempt
fail_attempt-InWindow g now a w c = ground arith

failures-InWindow :
    (g : LoginGuard) (later : List ℕ) (a : LoginAttempt)
    → All (InWindow g a) later
    → IsConsistent g a
    → ((failures g later a).failure_count ≡ a.failure_count + length later)
      × IsConsistent g (failures g later a)
unfolding failures
failures-InWindow g [] a w c = (omega arith, c)
failures-InWindow g (now ∷ later) a w c =
    let (counted, kept, consistent) = fail_attempt-InWindow g now a w.0 c in
    let (n, d) =
      failures-InWindow g later (fail_attempt g now a)
        (subst (λ (s : ℕ). All (λ k. k < s + g.window) later) (sym kept) w.1) consistent in
    (omega (arith, n, counted), d)

fail_attempt-locked :
    (g : LoginGuard) (now : ℕ) (a : LoginAttempt)
    → reaches_limit g (fail_attempt g now a) ≡ true
    → (fail_attempt g now a).locked_until ≡ some (now + g.lock_duration)
unfolding fail_attempt
fail_attempt-locked g now a h = ground arith

-- The first failure of a pair opens its window and counts one.
fail_attempt-fresh :
    (g : LoginGuard) (now : ℕ) (user ip : Text)
    → 0 < g.failure_limit
    → ((fail_attempt g now (fresh_attempt user ip now)).failure_count ≡ 1)
      × ((fail_attempt g now (fresh_attempt user ip now)).window_started_at ≡ now)
      × IsConsistent g (fail_attempt g now (fresh_attempt user ip now))
unfolding fail_attempt
fail_attempt-fresh g now user ip positive = ground arith

le-or-lt : (a b : ℕ) → (a ≤ b) ⊎ (b < a)
le-or-lt a b = ground arith

module _ (casefold : Text → Text) (g : LoginGuard) (username source_ip : Text) where
  abbrev name : Text
  name = normalize_username casefold username

  -- The failures of one pair, with no other replica in between.
  pub fail_all : List ℕ → Attempts → Attempts
  fail_all [] t = t
  fail_all (now ∷ later) t =
      fail_all later (record_failure casefold (λ u. u) g username source_ip now t).1

  is_pair-fail_attempt :
      (now : ℕ) (a : LoginAttempt)
      → is_pair name source_ip (fail_attempt g now a) ≡ is_pair name source_ip a
  unfolding is_pair fail_attempt
  is_pair-fail_attempt now a = ground arith

  is_pair-fresh : (now : ℕ) → is_pair name source_ip (fresh_attempt name source_ip now) ≡ true
  unfolding is_pair
  is_pair-fresh now = ground (arith, text_eq_refl name, text_eq_refl source_ip)

  written :
      (now : ℕ) (t : Attempts) (a : LoginAttempt)
      → find (is_pair name source_ip) t ≡ some a
      → find (is_pair name source_ip) (update_first (is_pair name source_ip) (fail_attempt g now) t)
        ≡ some (fail_attempt g now a)
  written now t a e =
      find-update_first (is_pair name source_ip) (fail_attempt g now) t e
        (is_pair-fail_attempt now a ∙ find-holds (is_pair name source_ip) t e)

  appended :
      (now : ℕ) (t : Attempts)
      → find (is_pair name source_ip) t ≡ none
      → find
          (is_pair name source_ip)
          (t ++ fail_attempt g now (fresh_attempt name source_ip now) ∷ [])
        ≡ some (fail_attempt g now (fresh_attempt name source_ip now))
  appended now t e =
      find-append_none (is_pair name source_ip) t
        (fail_attempt g now (fresh_attempt name source_ip now) ∷ []) e
      ∙ rw (is_pair-fail_attempt now (fresh_attempt name source_ip now), is_pair-fresh now)

  stored :
      (now : ℕ) (t : Attempts) {a : LoginAttempt}
      → find_attempt name source_ip t ≡ some a
      → find_attempt name source_ip (record_failure casefold (λ u. u) g username source_ip now t).1
        ≡ some (fail_attempt g now a)
  unfolding record_failure find_attempt
  stored now t {a} e = ground (arith, e, written now t a e)

  created :
      (now : ℕ) (t : Attempts)
      → find_attempt name source_ip t ≡ none
      → find_attempt name source_ip (record_failure casefold (λ u. u) g username source_ip now t).1
        ≡ some (fail_attempt g now (fresh_attempt name source_ip now))
  unfolding record_failure find_attempt
  created now t e = ground (arith, e, appended now t e)

  refused :
      (later : ℕ) (t : Attempts) {a : LoginAttempt} {until : ℕ}
      → find_attempt name source_ip t ≡ some a
      → a.locked_until ≡ some until
      → later < until
      → ensure_allowed casefold username source_ip later t ≡ err login_locked
  unfolding ensure_allowed
  refused later t e l early = ground arith

  let_through :
      (later : ℕ) (t : Attempts) {a : LoginAttempt} {until : ℕ}
      → find_attempt name source_ip t ≡ some a
      → a.locked_until ≡ some until
      → until ≤ later
      → (t' : Attempts) × (ensure_allowed casefold username source_ip later t ≡ ok t')
  unfolding ensure_allowed
  let_through later t e l late =
      (update_first (is_pair name source_ip) (clear_lock later) t, ground arith)

  fail_all-find :
      (later : List ℕ) (t : Attempts) {a : LoginAttempt}
      → find_attempt name source_ip t ≡ some a
      → find_attempt name source_ip (fail_all later t) ≡ some (failures g later a)
  unfolding fail_all failures
  fail_all-find [] t e = e
  fail_all-find (now ∷ later) t {a} e =
      fail_all-find later (record_failure casefold (λ u. u) g username source_ip now t).1
        (stored now t e)

  found_after :
      (first : ℕ) (later : List ℕ) (t : Attempts)
      → find_attempt name source_ip t ≡ none
      → find_attempt name source_ip (fail_all (first ∷ later) t)
        ≡ some (failures g later (fail_attempt g first (fresh_attempt name source_ip first)))
  unfolding fail_all
  found_after first later t absent =
      fail_all-find later (record_failure casefold (λ u. u) g username source_ip first t).1
        (created first t absent)

  record_failure-find :
      (rivals : Attempts → Attempts) (now : ℕ) (t : Attempts)
      → (a : LoginAttempt) × (find_attempt name source_ip
            (record_failure casefold rivals g username source_ip now t).1
          ≡ some (fail_attempt g now a))
        × ((record_failure casefold rivals g username source_ip now t).0
            ≡ reaches_limit g (fail_attempt g now a))
        × ((find_attempt name source_ip t ≡ some a)
            ⊎ ((find_attempt name source_ip t ≡ none)
                × ((find_attempt name source_ip (rivals t) ≡ some a)
                    ⊎ ((find_attempt name source_ip (rivals t) ≡ none)
                        × (a ≡ fresh_attempt name source_ip now)))))
  unfolding record_failure find_attempt
  record_failure-find rivals now t = elim (Option-cases (find_attempt name source_ip t)) [
    | inr (a, e) ↦ (a, ground (arith, e, written now t a e), ground (arith, e), inl e)
    | inl e ↦ elim (Option-cases (find_attempt name source_ip (rivals t))) [
      | inr (a, f) ↦ (
        a,
        ground (arith, e, f, written now (rivals t) a f),
        ground (arith, e, f),
        inr (e, inl f),
      )
      | inl f ↦ (
        fresh_attempt name source_ip now,
        ground (arith, e, f, appended now (rivals t) f),
        ground (arith, e, f),
        inr (e, inr (f, refl)),
      )
    ]
  ]

  -- When `record_failure` reports a lock, whatever other replicas commit while the row is created, a
  -- login of the pair is refused exactly until the lock's time is over.
  pub record_failure_locks :
      (rivals : Attempts → Attempts) (now later : ℕ) (t : Attempts)
      → (record_failure casefold rivals g username source_ip now t).0 ≡ true
      → (ensure_allowed casefold username source_ip later
            (record_failure casefold rivals g username source_ip now t).1
          ≡ err login_locked)
        ↔ (later < now + g.lock_duration)
  record_failure_locks rivals now later t h =
      let (a, found, reported, origin) = record_failure-find rivals now t in
      let locked = fail_attempt-locked g now a (sym reported ∙ h) in
      let t' = (record_failure casefold rivals g username source_ip now t).1 in
      (
        (λ (is_refused : ensure_allowed casefold username source_ip later t' ≡ err login_locked).
            elim (le-or-lt (now + g.lock_duration) later) [
              | inl late ↦
                  let (t2, allowed) = let_through later t' found locked late in ground arith
              | inr early ↦ early
            ]),
        (λ (early : later < now + g.lock_duration). refused later t' found locked early),
      )

  -- In the window that its first failure opens, a pair without a stored row is locked by the
  -- limit's number of failures, and not before.
  pub locked_at_limit :
      (first : ℕ) (later : List ℕ) (t : Attempts)
      → 0 < g.failure_limit
      → find_attempt name source_ip t ≡ none
      → All (λ now. now < first + g.window) later
      → (a : LoginAttempt) × (find_attempt name source_ip (fail_all (first ∷ later) t) ≡ some a)
        × (a.failure_count ≡ suc (length later))
        × (is_some a.locked_until ≡ leb g.failure_limit (suc (length later)))
  locked_at_limit first later t positive absent in_window =
      let a = fail_attempt g first (fresh_attempt name source_ip first) in
      let (one, opened, consistent) = fail_attempt-fresh g first name source_ip positive in
      let (n, c) =
        failures-InWindow g later a
          (subst (λ (s : ℕ). All (λ k. k < s + g.window) later) (sym opened) in_window)
          consistent in
      let count : (failures g later a).failure_count ≡ suc (length later) = omega (arith, n, one) in
      (
        failures g later a,
        found_after first later t absent,
        count,
        c ∙ ap (leb g.failure_limit) count,
      )
