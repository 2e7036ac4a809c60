-- ===== src/Platform/LoginGuard.antt =====
-- src/property_agent/platform/application/login_guard.py. `str.casefold` is the argument
-- `casefold`; the constructor's refusal of limits that are not positive is `make_guard`.
pub mod Locking
use property_community_agent.Base.{
  ℕ, ◌+◌, String, Bool, true, false, ◌&&◌, ◌||◌, Option, none, some, List, [], ◌∷◌, ◌++◌, ltb, leb,
  ◌==◌, if◌then◌else◌, find, update_first, select, not, Text, text_eq, strip, Result, ok, err,
}

pub record LoginGuard : Type 0 where
  pub failure_limit : ℕ
  pub window : ℕ
  pub lock_duration : ℕ

pub data LoginError : Type 0 where
  login_locked bad_guard : LoginError

-- `LoginGuard.__init__`.
unfoldable pub make_guard : ℕ → ℕ → ℕ → Result LoginError LoginGuard
make_guard failure_limit window lock_duration =
    if failure_limit == 0 || window == 0 || lock_duration == 0
    then err bad_guard
    else ok
        (record { failure_limit = failure_limit; window = window; lock_duration = lock_duration })

-- A row of `login_attempts`.
pub record LoginAttempt : Type 0 where
  pub username : Text
  pub source_ip : Text
  pub failure_count : ℕ
  pub window_started_at : ℕ
  pub locked_until : Option ℕ

abbrev pub Attempts : Type 0
Attempts = List LoginAttempt

unfoldable pub is_pair : Text → Text → LoginAttempt → Bool
is_pair username source_ip a = text_eq a.username username && text_eq a.source_ip source_ip

-- `_find_for_update`.
unfoldable pub find_attempt : Text → Text → Attempts → Option LoginAttempt
unfolding is_pair
find_attempt username source_ip t = find (is_pair username source_ip) t

abbrev pub fresh_attempt : Text → Text → ℕ → LoginAttempt
fresh_attempt username source_ip current = record {
  username = username;
  source_ip = source_ip;
  failure_count = 0;
  window_started_at = current;
  locked_until = none;
}

abbrev pub clear_lock : ℕ → LoginAttempt → LoginAttempt
clear_lock current a = record a {
  failure_count = 0;
  window_started_at = current;
  locked_until = none;
}

-- The count of `record_failure` before its test of the limit.
abbrev pub count_failure : LoginGuard → ℕ → LoginAttempt → LoginAttempt
count_failure g current a =
    if leb (a.window_started_at + g.window) current
    then record a { failure_count = 1; window_started_at = current; locked_until = none }
    else record a { failure_count = a.failure_count + 1 }

abbrev pub reaches_limit : LoginGuard → LoginAttempt → Bool
reaches_limit g a = leb g.failure_limit a.failure_count

abbrev pub lock_if_reached : LoginGuard → ℕ → LoginAttempt → LoginAttempt
lock_if_reached g current a =
    if reaches_limit g a then record a { locked_until = some (current + g.lock_duration) } else a

unfoldable pub fail_attempt : LoginGuard → ℕ → LoginAttempt → LoginAttempt
fail_attempt g current a = lock_if_reached g current (count_failure g current a)

module _ (casefold : Text → Text) where
  unfoldable pub normalize_username : Text → Text
  normalize_username username = casefold (strip username)

  abbrev allowed_found :
      Option LoginAttempt → Text → Text → ℕ → Attempts → Result LoginError Attempts
  allowed_found none username source_ip current t = ok t
  allowed_found (some a) username source_ip current t = elim a.locked_until [
    | none ↦ ok t
    | some until ↦
        if ltb current until
        then err login_locked
        else ok (update_first (is_pair username source_ip) (clear_lock current) t)
  ]

  -- `ensure_allowed`.
  unfoldable pub ensure_allowed : Text → Text → ℕ → Attempts → Result LoginError Attempts
  unfolding find_attempt normalize_username
  ensure_allowed username source_ip current t =
      let name = normalize_username username in
      allowed_found (find_attempt name source_ip t) name source_ip current t

  abbrev failure_found :
      Option LoginAttempt → LoginGuard → Text → Text → ℕ → Attempts → Bool × Attempts
  failure_found none g username source_ip current t =
      let a = fail_attempt g current (fresh_attempt username source_ip current) in
      (reaches_limit g a, t ++ a ∷ [])
  failure_found (some a) g username source_ip current t = (
    reaches_limit g (fail_attempt g current a),
    update_first (is_pair username source_ip) (fail_attempt g current) t,
  )

  -- `record_failure`: whether the pair is now locked, and the table. `rivals` is what other replicas
  -- commit before the row is created (`_create_or_reload`); with none it is the identity.
  unfoldable pub record_failure :
      (Attempts → Attempts) → LoginGuard → Text → Text → ℕ → Attempts → Bool × Attempts
  unfolding find_attempt fail_attempt normalize_username
  record_failure rivals g username source_ip current t =
      let name = normalize_username username in
      elim (find_attempt name source_ip t) [
        | some a ↦ failure_found (some a) g name source_ip current t
        | none ↦
            failure_found (find_attempt name source_ip (rivals t)) g name source_ip current
              (rivals t)
      ]

  -- `record_success`: the row is deleted.
  unfoldable pub record_success : Text → Text → Attempts → Attempts
  unfolding is_pair normalize_username
  record_success username source_ip t =
      select (λ a. not (is_pair (normalize_username username) source_ip a)) t
