-- ===== src/Base/Predicates.antt =====
-- A predicate on every element of a list, and how the list operations keep it.
use Prim.Native.Nat.{ℕ, zero, suc, ◌≤◌}
use mathlib.Core.Path.{◌≡◌, sym, subst}
use mathlib.Core.Logic.{inl, inr}
use mathlib.Core.Bool.{Bool, true}
use mathlib.Core.Option.{some}
use mathlib.Core.List.{List, [], ◌∷◌, ◌++◌, map}
use native.Mathlib.Omega.{arith}
use property_community_agent.Base.Tests.{if◌then◌else◌, Bool-cases}
use property_community_agent.Base.Lists.{
  select, find, take, drop, update_where, update_first, count_where,
}

-- A predicate on every element.
abbrev pub All {ℓ κ} : {A : Type ℓ} → (A → Type κ) → List A → Type κ
All P [] = Unit
All P (x ∷ xs) = P x × All P xs

pub All-append {ℓ κ} :
    {A : Type ℓ} (P : A → Type κ) (xs ys : List A) → All P xs → All P ys → All P (xs ++ ys)
All-append P [] ys h k = k
All-append P (x ∷ xs) ys (h, hs) k = (h, All-append P xs ys hs k)

pub All-select {ℓ κ} :
    {A : Type ℓ} (P : A → Type κ) (p : A → Bool) (xs : List A)
    → ((x : A) → p x ≡ true → P x)
    → All P (select p xs)
All-select P p [] k = tt
All-select P p (x ∷ xs) k = elim (Bool-cases (p x)) [
  | inl e ↦
      subst (λ (b : Bool). All P (if b then x ∷ select p xs else select p xs)) (sym e)
        (k x e, All-select P p xs k)
  | inr e ↦
      subst (λ (b : Bool). All P (if b then x ∷ select p xs else select p xs)) (sym e)
        (All-select P p xs k)
]

pub All-update_where {ℓ κ} :
    {A : Type ℓ} (P : A → Type κ) (q : A → Bool) (f : A → A) (xs : List A)
    → ((x : A) → q x ≡ true → P (f x))
    → All P xs
    → All P (update_where q f xs)
All-update_where P q f [] k h = tt
All-update_where P q f (x ∷ xs) k (h, hs) = elim (Bool-cases (q x)) [
  | inl e ↦ (
    subst (λ (b : Bool). P (if b then f x else x)) (sym e) (k x e),
    All-update_where P q f xs k hs,
  )
  | inr e ↦
      (subst (λ (b : Bool). P (if b then f x else x)) (sym e) h, All-update_where P q f xs k hs)
]

pub All-find {ℓ κ} :
    {A : Type ℓ} (P : A → Type κ) (p : A → Bool) (xs : List A) {m : A}
    → All P xs
    → find p xs ≡ some m
    → P m
All-find P p [] h e = cc
All-find P p (x ∷ xs) {m} (h, hs) e = elim (Bool-cases (p x)) [
  | inl b ↦ subst P (ground arith) h
  | inr b ↦ All-find P p xs hs (ground arith)
]

pub All-zip {ℓ κ} :
    {A : Type ℓ} (P Q R : A → Type κ) (xs : List A)
    → ((x : A) → P x → Q x → R x)
    → All P xs
    → All Q xs
    → All R xs
All-zip P Q R [] f h k = tt
All-zip P Q R (x ∷ xs) f (h, hs) (k, ks) = (f x h k, All-zip P Q R xs f hs ks)

module _ {ℓ} {A : Type ℓ} (p q : A → Bool) (m : A) where
  pub find-count_where : (xs : List A) → find p xs ≡ some m → q m ≡ true → 1 ≤ count_where q xs
  find-count_where [] h k = cc
  find-count_where (x ∷ xs) h k = ground (arith, find-count_where xs)

  none_matches : (xs : List A) → count_where q xs ≡ 0 → All (λ x. q x ≡ true → x ≡ m) xs
  none_matches [] h = tt
  none_matches (x ∷ xs) h = (λ e. ground arith, none_matches xs (ground arith))

  -- If at most one element passes a test and a query has found one, there is no other.
  pub All-unique :
      (xs : List A)
      → find p xs ≡ some m
      → q m ≡ true
      → count_where q xs ≤ 1
      → All (λ x. q x ≡ true → x ≡ m) xs
  All-unique [] h k l = tt
  All-unique (x ∷ xs) h k l = elim (Bool-cases (p x)) [
    | inl b ↦ (λ e. ground arith, none_matches xs (ground arith))
    | inr b ↦
        let n = find-count_where xs (ground arith) k in
        (λ e. ground arith, All-unique xs (ground arith) k (ground arith))
  ]

module _ {ℓ κ} {A : Type ℓ} (P : A → Type κ) where
  pub All-take : (n : ℕ) (xs : List A) → All P xs → All P (take n xs)
  All-take zero xs h = tt
  All-take (suc n) [] h = tt
  All-take (suc n) (x ∷ xs) (h, hs) = (h, All-take n xs hs)

  pub All-drop : (n : ℕ) (xs : List A) → All P xs → All P (drop n xs)
  All-drop zero xs h = h
  All-drop (suc n) [] h = tt
  All-drop (suc n) (x ∷ xs) (h, hs) = All-drop n xs hs

  pub All-map {ι} :
      {B : Type ι} (f : B → A) (xs : List B) → All (λ x. P (f x)) xs → All P (map f xs)
  All-map f [] h = tt
  All-map f (x ∷ xs) (h, hs) = (h, All-map f xs hs)

pub All-update_first_same {ℓ κ} :
    {A : Type ℓ} (P : A → Type κ) (q : A → Bool) (f : A → A) (xs : List A)
    → ((x : A) → P x → P (f x))
    → All P xs
    → All P (update_first q f xs)
All-update_first_same P q f [] k h = tt
All-update_first_same P q f (x ∷ xs) k (h, hs) = elim (Bool-cases (q x)) [
  | inl e ↦
      subst (λ (b : Bool). All P (if b then f x ∷ xs else x ∷ update_first q f xs)) (sym e)
        (k x h, hs)
  | inr e ↦
      subst (λ (b : Bool). All P (if b then f x ∷ xs else x ∷ update_first q f xs)) (sym e)
        (h, All-update_first_same P q f xs k hs)
]

module _ {ℓ κ} {A : Type ℓ} (P : A → Type κ) (q : A → Bool) where
  pub All-no_match : (xs : List A) → count_where q xs ≡ 0 → All (λ x. q x ≡ true → P x) xs
  All-no_match [] h = tt
  All-no_match (x ∷ xs) h = (λ e. ground arith, All-no_match xs (ground arith))

  -- The write of the only match.
  pub All-update_only :
      (f : A → A) (xs : List A) {m : A}
      → find q xs ≡ some m
      → count_where q xs ≡ 1
      → P (f m)
      → All (λ x. q x ≡ true → P x) (update_first q f xs)
  All-update_only f [] h n k = tt
  All-update_only f (x ∷ xs) {m} h n k = elim (Bool-cases (q x)) [
    | inl e ↦
        subst
          (λ (b : Bool).
            All (λ x. q x ≡ true → P x) (if b then f x ∷ xs else x ∷ update_first q f xs))
          (sym e) (λ d. subst (λ (y : A). P (f y)) (ground arith) k, All-no_match xs (ground arith))
    | inr e ↦
        subst
          (λ (b : Bool).
            All (λ x. q x ≡ true → P x) (if b then f x ∷ xs else x ∷ update_first q f xs))
          (sym e) (λ d. ground arith, All-update_only f xs {m = m} (ground arith) (ground arith) k)
  ]

pub All-rewrite {ℓ κ} :
    {A : Type ℓ} (P : A → Type κ) (q : A → Bool) (f : A → A) (xs : List A)
    → ((x : A) → P x → P (f x))
    → All P xs
    → All P (update_where q f xs)
All-rewrite P q f [] k h = tt
All-rewrite P q f (x ∷ xs) k (h, hs) = elim (Bool-cases (q x)) [
  | inl e ↦
      (subst (λ (b : Bool). P (if b then f x else x)) (sym e) (k x h), All-rewrite P q f xs k hs)
  | inr e ↦ (subst (λ (b : Bool). P (if b then f x else x)) (sym e) h, All-rewrite P q f xs k hs)
]

-- A write of all matching rows, where only the row that a query found matches.
pub All-update_found {ℓ κ} :
    {A : Type ℓ} (P : A → Type κ) (p q : A → Bool) (f : A → A) (xs : List A) {m : A}
    → find p xs ≡ some m
    → q m ≡ true
    → count_where q xs ≤ 1
    → P (f m)
    → All P xs
    → All P (update_where q f xs)
All-update_found {A} P p q f xs {m} e d n k h = go xs (All-unique p q m xs e d n) h
  where
    go : (ys : List A) → All (λ x. q x ≡ true → x ≡ m) ys → All P ys → All P (update_where q f ys)
    go [] us vs = tt
    go (x ∷ ys) (u, us) (v, vs) = elim (Bool-cases (q x)) [
      | inl b ↦ (
        subst (λ (c : Bool). P (if c then f x else x)) (sym b)
            (subst (λ (y : A). P (f y)) (sym (u b)) k),
        go ys us vs,
      )
      | inr b ↦ (subst (λ (c : Bool). P (if c then f x else x)) (sym b) v, go ys us vs)
    ]

pub All-always {ℓ κ} : {A : Type ℓ} (P : A → Type κ) (xs : List A) → ((x : A) → P x) → All P xs
All-always P [] k = tt
All-always P (x ∷ xs) k = (k x, All-always P xs k)

pub All-weaken {ℓ κ ι} :
    {A : Type ℓ} (P : A → Type κ) (Q : A → Type ι) (xs : List A)
    → ((x : A) → P x → Q x)
    → All P xs
    → All Q xs
All-weaken P Q [] k h = tt
All-weaken P Q (x ∷ xs) k (h, hs) = (k x h, All-weaken P Q xs k hs)
