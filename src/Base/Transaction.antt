-- ===== src/Base/Transaction.antt =====
-- A unit of work: a session is read and written, and an exception gives the writes up.
use mathlib.Core.Path.{◌≡◌, refl, subst}
use mathlib.Core.Logic.{◌⊎◌, inl, inr}
use mathlib.Core.Bool.{Bool, true, false}
use mathlib.Core.Option.{Option, none, some}

pub data Result (E : Type 0) (A : Type 0) : Type 0 where
  ok : A → Result E A
  err : E → Result E A

-- What runs inside `with unit_of_work() as uow`: the exception carries no session, since `__exit__`
-- rolls it back.
abbrev pub Action : Type 0 → Type 0 → Type 0 → Type 0
Action S E A = S → Result E (A × S)

pub Result-cases :
    {E A : Type 0} (r : Result E A) → ((a : A) × (r ≡ ok a)) ⊎ ((e : E) × (r ≡ err e))
Result-cases (ok a) = inl (a, refl)
Result-cases (err e) = inr (e, refl)

module _ {S E : Type 0} where
  abbrev pub pure : {A : Type 0} → A → Action S E A
  pure a s = ok (a, s)

  abbrev pub raise : {A : Type 0} → E → Action S E A
  raise e _ = err e

  abbrev pub gets : {A : Type 0} → (S → A) → Action S E A
  gets f s = ok (f s, s)

  abbrev pub modify : (S → S) → Action S E (Unit {0})
  modify f s = ok (tt, f s)

  -- `if not b: raise e`.
  abbrev pub require : Bool → E → Action S E (Unit {0})
  require true _ s = ok (tt, s)
  require false e _ = err e

  abbrev pub or_raise : {A : Type 0} → Option A → E → Action S E A
  or_raise none e _ = err e
  or_raise (some a) _ s = ok (a, s)

  infixl 5 ◌>>=◌ ◌>>◌
  abbrev pub ◌>>=◌ : {A B : Type 0} → Action S E A → (A → Action S E B) → Action S E B
  ◌>>=◌ m f s = elim (m s) [ ok (a, s') ↦ f a s' | err e ↦ err e ]

  abbrev pub ◌>>◌ : {B : Type 0} → Action S E (Unit {0}) → Action S E B → Action S E B
  m >> k = m >>= λ _. k

  -- A lookup that finds something is the result, and the rest runs when it finds nothing.
  abbrev pub found_or : {A : Type 0} → Action S E (Option A) → Action S E A → Action S E A
  found_or m rest = do found ← m; elim found [ some a ↦ pure a | none ↦ rest ]

  -- Leave the `with` block: commit on a normal return, roll back on an exception.
  abbrev pub transact : {A : Type 0} → Action S E A → S → Result E A × S
  transact m s = elim (m s) [ ok (a, s') ↦ (ok a, s') | err e ↦ (err e, s) ]

  -- A successful action followed by another splits into two successes.
  pub >>=-eq-ok :
      {A B : Type 0} (m : Action S E A) (f : A → Action S E B) (s : S) {r : B × S}
      → (m >>= f) s ≡ ok r
      → (p : A × S) × (m s ≡ ok p) × (f p.0 p.1 ≡ ok r)
  >>=-eq-ok {A} {B} m f s {r} h = go (m s) refl h
    where
      go :
          (q : Result E (A × S))
          → m s ≡ q
          → elim q [ ok (a, s') ↦ f a s' | err e ↦ err e ] ≡ ok r
          → (p : A × S) × (m s ≡ ok p) × (f p.0 p.1 ≡ ok r)
      go (ok p) e h = (p, e, h)
      go (err x) e h = cc

  -- A call keeps what its success keeps, since a failure is rolled back.
  pub transact-keeps :
      {A : Type 0} (P : S → Type 0) (m : Action S E A) (s : S)
      → P s
      → ((r : A × S) → m s ≡ ok r → P r.1)
      → P (transact m s).1
  transact-keeps P m s v keeps = elim (Result-cases (m s)) [
    | inl (r, e) ↦ subst P (cc) (keeps r e)
    | inr (x, e) ↦ subst P (cc) v
  ]
