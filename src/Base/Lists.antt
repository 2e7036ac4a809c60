-- ===== src/Base/Lists.antt =====
-- Lists over the native numbers: length, tests, first match, and a point update.
use Prim.Native.Nat.{ℕ, zero, suc, ◌+◌, ◌≤◌}
use mathlib.Core.Path.{◌≡◌, refl}
use mathlib.Core.Logic.{inl, inr}
use mathlib.Core.Bool.{Bool, true, false, ◌&&◌, ◌||◌}
use mathlib.Core.Option.{Option, none, some}
use mathlib.Core.List.{List, [], ◌∷◌, ◌++◌, map}
use native.Mathlib.Omega.{arith}
use property_community_agent.Base.Tests.{if◌then◌else◌, ◌==◌, Bool-cases}

module _ {ℓ} {A : Type ℓ} where
  abbrev pub length : List A → ℕ
  length [] = 0
  length (_ ∷ xs) = suc (length xs)

  abbrev pub any : (A → Bool) → List A → Bool
  any p [] = false
  any p (x ∷ xs) = p x || any p xs

  abbrev pub all : (A → Bool) → List A → Bool
  all p [] = true
  all p (x ∷ xs) = p x && all p xs

  -- The elements that pass a test, in order.
  abbrev pub select : (A → Bool) → List A → List A
  select p [] = []
  select p (x ∷ xs) = let rest = select p xs in if p x then x ∷ rest else rest

  -- `next((x for x in xs if p(x)), None)`; a query's `first()`.
  abbrev pub find : (A → Bool) → List A → Option A
  find p [] = none
  find p (x ∷ xs) = if p x then some x else find p xs

  abbrev pub take : ℕ → List A → List A
  take zero xs = []
  take (suc n) [] = []
  take (suc n) (x ∷ xs) = x ∷ take n xs

  abbrev pub drop : ℕ → List A → List A
  drop zero xs = xs
  drop (suc n) [] = []
  drop (suc n) (x ∷ xs) = drop n xs

  -- Every row that passes the test is rewritten.
  abbrev pub update_where : (A → Bool) → (A → A) → List A → List A
  update_where p f [] = []
  update_where p f (x ∷ xs) = (if p x then f x else x) ∷ update_where p f xs

  -- The first row that passes the test is rewritten: a write of the row that a query fetched.
  abbrev pub update_first : (A → Bool) → (A → A) → List A → List A
  update_first p f [] = []
  update_first p f (x ∷ xs) = if p x then f x ∷ xs else x ∷ update_first p f xs

  abbrev pub count_where : (A → Bool) → List A → ℕ
  count_where p [] = 0
  count_where p (x ∷ xs) = (if p x then 1 else 0) + count_where p xs

abbrev pub mem_id : ℕ → List ℕ → Bool
mem_id a [] = false
mem_id a (x ∷ xs) = a == x || mem_id a xs

module _ {ℓ} {A : Type ℓ} where
  pub length-append : (xs ys : List A) → length (xs ++ ys) ≡ length xs + length ys
  length-append [] ys = omega arith
  length-append (x ∷ xs) ys = omega (arith, length-append xs ys)

  pub count_where-append :
      (p : A → Bool) (xs ys : List A)
      → count_where p (xs ++ ys) ≡ count_where p xs + count_where p ys
  count_where-append p [] ys = omega arith
  count_where-append p (x ∷ xs) ys = omega (arith, count_where-append p xs ys)

  pub count_where-find-none : (p : A → Bool) (xs : List A) → find p xs ≡ none → count_where p xs ≡ 0
  count_where-find-none p [] h = refl
  count_where-find-none p (x ∷ xs) h = ground (arith, count_where-find-none p xs)

  pub any-count_where :
      (p : A → Bool) (xs : List A) → any p xs ≡ (if count_where p xs == 0 then false else true)
  any-count_where p [] = refl
  any-count_where p (x ∷ xs) = ground (arith, any-count_where p xs)

  pub any-append : (p : A → Bool) (xs ys : List A) → any p (xs ++ ys) ≡ (any p xs || any p ys)
  any-append p [] ys = refl
  any-append p (x ∷ xs) ys = ground (arith, any-append p xs ys)

  -- A write that makes the fetched row pass only if it passed before leaves no more that pass.
  pub count_where-update_first :
      (p q : A → Bool) (f : A → A) (xs : List A) {m : A}
      → find q xs ≡ some m
      → (p (f m) ≡ true → p m ≡ true)
      → count_where p (update_first q f xs) ≤ count_where p xs
  count_where-update_first p q f [] h k = omega arith
  count_where-update_first p q f (x ∷ xs) {m} h k =
      ground (arith, count_where-update_first p q f xs {m = m}, k)

  pub find-update_first :
      (q : A → Bool) (f : A → A) (xs : List A) {m : A}
      → find q xs ≡ some m
      → q (f m) ≡ true
      → find q (update_first q f xs) ≡ some (f m)
  find-update_first q f [] h k = cc
  find-update_first q f (x ∷ xs) {m} h k = ground (arith, find-update_first q f xs {m = m})

  -- Another query does not see the write, if it passes over the row before and after.
  pub find-update_first_ne :
      (p q : A → Bool) (f : A → A) (xs : List A) {m : A}
      → find q xs ≡ some m
      → p m ≡ false
      → p (f m) ≡ false
      → find p (update_first q f xs) ≡ find p xs
  find-update_first_ne p q f [] h k l = refl
  find-update_first_ne p q f (x ∷ xs) {m} h k l =
      ground (arith, find-update_first_ne p q f xs {m = m})

  pub find-append_none :
      (p : A → Bool) (xs ys : List A) → find p xs ≡ none → find p (xs ++ ys) ≡ find p ys
  find-append_none p [] ys h = refl
  find-append_none p (x ∷ xs) ys h = ground (arith, find-append_none p xs ys)

  pub find-append_some :
      (p : A → Bool) (xs ys : List A) {m : A} → find p xs ≡ some m → find p (xs ++ ys) ≡ some m
  find-append_some p [] ys h = cc
  find-append_some p (x ∷ xs) ys {m} h = ground (arith, find-append_some p xs ys {m = m})

  pub find-holds : (p : A → Bool) (xs : List A) {x : A} → find p xs ≡ some x → p x ≡ true
  find-holds p [] h = cc
  find-holds p (y ∷ ys) {x} h = ground (arith, find-holds p ys {x = x})

  -- A write of all matching rows, seen by a query that the write does not affect.
  pub find-update_where :
      (p q : A → Bool) (f : A → A) (xs : List A) {m : A}
      → ((x : A) → p (f x) ≡ p x)
      → find p xs ≡ some m
      → find p (update_where q f xs) ≡ some (if q m then f m else m)
  find-update_where p q f [] k h = cc
  find-update_where p q f (x ∷ xs) {m} k h = elim (Bool-cases (p x)) [
    | inl e ↦ elim (Bool-cases (q x)) [ inl d ↦ ground (arith, k x) | inr d ↦ ground arith ]
    | inr e ↦ elim (Bool-cases (q x)) [
      | inl d ↦ ground (arith, k x, find-update_where p q f xs {m = m} k)
      | inr d ↦ ground (arith, find-update_where p q f xs {m = m} k)
    ]
  ]

  pub count_where-update_where :
      (p q : A → Bool) (f : A → A) (xs : List A)
      → ((x : A) → p (f x) ≡ p x)
      → count_where p (update_where q f xs) ≡ count_where p xs
  count_where-update_where p q f [] k = refl
  count_where-update_where p q f (x ∷ xs) k =
      ground (arith, k x, count_where-update_where p q f xs k)

  -- A write of all matching rows after which no row matches a second test.
  pub count_where-update_where_none :
      (p q : A → Bool) (f : A → A) (xs : List A)
      → ((x : A) → q x ≡ true → p (f x) ≡ false)
      → ((x : A) → q x ≡ false → p x ≡ false)
      → count_where p (update_where q f xs) ≡ 0
  count_where-update_where_none p q f [] k l = refl
  count_where-update_where_none p q f (x ∷ xs) k l =
      ground (arith, k x, l x, count_where-update_where_none p q f xs k l)

  pub length-update_where :
      (q : A → Bool) (f : A → A) (xs : List A) → length (update_where q f xs) ≡ length xs
  length-update_where q f [] = refl
  length-update_where q f (x ∷ xs) = ground (arith, length-update_where q f xs)

pub length-take {ℓ} : {A : Type ℓ} (n : ℕ) (xs : List A) → length (take n xs) ≤ n
length-take zero xs = omega arith
length-take (suc n) [] = omega arith
length-take (suc n) (x ∷ xs) = omega (arith, length-take n xs)

pub length-map {ℓ κ} :
    {A : Type ℓ} {B : Type κ} (f : A → B) (xs : List A) → length (map f xs) ≡ length xs
length-map f [] = refl
length-map f (x ∷ xs) = omega (arith, length-map f xs)

module _ {ℓ} {A : Type ℓ} where
  -- A write of the first match that a test does not see.
  pub count_where-update_first_same :
      (p q : A → Bool) (f : A → A) (xs : List A)
      → ((x : A) → p (f x) ≡ p x)
      → count_where p (update_first q f xs) ≡ count_where p xs
  count_where-update_first_same p q f [] k = refl
  count_where-update_first_same p q f (x ∷ xs) k =
      ground (arith, k x, count_where-update_first_same p q f xs k)
