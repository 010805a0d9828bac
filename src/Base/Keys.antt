-- ===== src/Base/Keys.antt =====
-- Lookups after a write, and the row that a key names.
use mathlib.Core.Option
use mathlib.Core.Path.{◌≡◌, refl}
use mathlib.Core.Logic.{inl, inr}
use mathlib.Core.Bool.{Bool, true, false}
use mathlib.Core.Option.{Option, none, some}
use mathlib.Core.List.{List, [], ◌∷◌, ◌++◌}
use native.Mathlib.Omega.{arith}
use laap.Base.Tests.{is_some, if◌then◌else◌, Bool-cases, true-ne-false}
use laap.Base.Lists.{All, All-weaken}
use laap.Base.Rows.{select_where, find_where, delete_where, update_where, exists_where, distinct_by}

module _ {ℓ} {A : Type ℓ} (p q : A → Bool) where
  -- A lookup by what the write leaves alone finds the same row, rewritten.
  pub find_where-update :
      (f : A → A)
      → ((a : A) → p (f a) ≡ p a)
      → (xs : List A)
      → find_where p (update_where q f xs)
        ≡ Option.map (λ (a : A). if q a then f a else a) (find_where p xs)
  unfolding find_where update_where
  find_where-update f keep [] = refl
  find_where-update f keep (x ∷ xs) = ground (arith, keep x, find_where-update f keep xs)

  pub find_where-delete_other :
      ((a : A) → p a ≡ true → q a ≡ false)
      → (xs : List A) → find_where p (delete_where q xs) ≡ find_where p xs
  unfolding find_where delete_where
  find_where-delete_other other [] = refl
  find_where-delete_other other (x ∷ xs) = ground (arith, other x, find_where-delete_other other xs)

module _ {ℓ} {A : Type ℓ} (p : A → Bool) where
  pub exists_where-false : (xs : List A) → exists_where p xs ≡ false → All (λ x. p x ≡ false) xs
  unfolding exists_where
  exists_where-false [] h = tt
  exists_where-false (x ∷ xs) h = ground (arith, exists_where-false xs)

  pub exists_where-of_All : (xs : List A) → All (λ x. p x ≡ false) xs → exists_where p xs ≡ false
  unfolding exists_where
  exists_where-of_All [] h = refl
  exists_where-of_All (x ∷ xs) h = rw h.0 (exists_where-of_All xs h.1)

module _ {ℓ} {A : Type ℓ} (p : A → Bool) where
  -- Where rows that meet the clause clash, the first of them is the only one.
  pub find_where_unique :
      (clash : A → A → Bool)
      → ((a b : A) → p a ≡ true → p b ≡ true → clash a b ≡ true)
      → (xs : List A) (a : A) → distinct_by clash xs ≡ true
      → find_where p xs ≡ some a
      → All (λ x. p x ≡ true → x ≡ a) xs
  unfolding find_where distinct_by
  find_where_unique clash both [] a d e = tt
  find_where_unique clash both (x ∷ xs) a d e = elim (Bool-cases (p x)) [
    | inl hit ↦
        let same : x ≡ a = ground arith in
        (
          λ _. same,
          All-weaken {P = λ y. clash x y ≡ false} (λ y apart k. absurd (ground (arith, both x y)))
              xs (exists_where-false (clash x) xs (ground arith)),
        )
    | inr miss ↦ (
      λ k. absurd (ground arith),
      find_where_unique clash both xs a (ground arith) (ground arith),
    )
  ]

-- A write by a key that names one row: only that row is checked anew.
pub All-update_unique {ℓ κ} :
    {A : Type ℓ} (P : A → Type κ) (p : A → Bool) (f : A → A) (a : A)
    → P (f a)
    → (xs : List A) → All (λ x. p x ≡ true → x ≡ a) xs
    → All P xs
    → All P (update_where p f xs)
unfolding update_where
All-update_unique P p f a new [] only h = tt
All-update_unique P p f a new (x ∷ xs) only h = elim (Bool-cases (p x)) [
  | inl hit ↦ rw (hit, only.0 hit) (new, All-update_unique P p f a new xs only.1 h.1)
  | inr miss ↦ rw miss (h.0, All-update_unique P p f a new xs only.1 h.1)
]

module _ {ℓ} {A : Type ℓ} (p : A → Bool) where
  pub is_some-append :
      (xs : List A) (a : A)
      → is_some (find_where p xs) ≡ true
      → is_some (find_where p (xs ++ a ∷ [])) ≡ true
  unfolding find_where
  is_some-append [] a h = cc
  is_some-append (x ∷ xs) a h = ground (arith, is_some-append xs a)

  pub is_some-append_new :
      (xs : List A) (a : A) → p a ≡ true → is_some (find_where p (xs ++ a ∷ [])) ≡ true
  unfolding find_where
  is_some-append_new [] a h = rw h refl
  is_some-append_new (x ∷ xs) a h = ground (arith, is_some-append_new xs a h)

  -- A row that another clause found is found by this one too, or one before it is.
  pub is_some-of_hit :
      (xs : List A) (a : A) (q : A → Bool)
      → find_where q xs ≡ some a
      → p a ≡ true
      → is_some (find_where p xs) ≡ true
  unfolding find_where
  is_some-of_hit [] a q e h = cc
  is_some-of_hit (x ∷ xs) a q e h = elim (Bool-cases (p x)) [
    | inl hit ↦ rw hit refl
    | inr miss ↦ elim (Bool-cases (q x)) [
      | inl here ↦ let same : x ≡ a = ground arith in absurd (true-ne-false h (rw same at miss))
      | inr later ↦ rw miss (is_some-of_hit xs a q (ground arith) h)
    ]
  ]

  pub is_some-update :
      (q : A → Bool) (f : A → A)
      → ((a : A) → q a ≡ true → p a ≡ true → p (f a) ≡ true)
      → (xs : List A) → is_some (find_where p xs) ≡ true
      → is_some (find_where p (update_where q f xs)) ≡ true
  unfolding find_where update_where
  is_some-update q f keep [] h = h
  is_some-update q f keep (x ∷ xs) h = ground (arith, keep x, is_some-update q f keep xs)

-- Each row that a selection takes is in what it selects.
pub select_where-covers {ℓ} :
    {A : Type ℓ} (same : A → A → Bool) (refl_same : (a : A) → same a a ≡ true) (p : A → Bool)
    (xs : List A)
    → All (λ s. p s ≡ true → exists_where (λ r. same r s) (select_where p xs) ≡ true) xs
unfolding select_where exists_where
select_where-covers same refl_same p [] = tt
select_where-covers same refl_same p (x ∷ xs) = (
  λ k. rw k (rw (refl_same x) refl),
  All-weaken {P = λ s. p s ≡ true → exists_where (λ r. same r s) (select_where p xs) ≡ true}
      (λ s later k. ground (arith, later k)) xs (select_where-covers same refl_same p xs),
)

-- A write that adds no row to a clause, as the clause is read after it.
pub exists_where-update {ℓ} :
    {A : Type ℓ} (p c c' : A → Bool) (f : A → A)
    → ((a : A) → c' a ≡ true → c a ≡ true)
    → ((a : A) → c' (f a) ≡ true → c a ≡ true)
    → (xs : List A) → exists_where c xs ≡ false
    → exists_where c' (update_where p f xs) ≡ false
unfolding exists_where update_where
exists_where-update p c c' f same new [] h = refl
exists_where-update p c c' f same new (x ∷ xs) h = elim (Bool-cases (p x)) [
  | inl hit ↦ rw hit (ground (arith, new x, exists_where-update p c c' f same new xs))
  | inr miss ↦ rw miss (ground (arith, same x, exists_where-update p c c' f same new xs))
]

-- A write that leaves a row's clashes alone keeps the rows distinct.
pub distinct_by-update {ℓ} :
    {A : Type ℓ} (clash : A → A → Bool) (p : A → Bool) (f : A → A)
    → ((a b : A) → clash (f a) b ≡ clash a b)
    → ((a b : A) → clash a (f b) ≡ clash a b)
    → (xs : List A) → distinct_by clash xs ≡ true
    → distinct_by clash (update_where p f xs) ≡ true
unfolding distinct_by update_where
distinct_by-update clash p f left right [] h = refl
distinct_by-update clash p f left right (x ∷ xs) h =
    let rest : distinct_by clash (update_where p f xs) ≡ true =
      distinct_by-update clash p f left right xs (ground arith) in
    elim (Bool-cases (p x)) [
      | inl hit ↦
          let apart : exists_where (clash (f x)) (update_where p f xs) ≡ false =
            exists_where-update p (clash x) (clash (f x)) f (λ a k. rw (left x a) at k)
              (λ a k. rw (left x (f a), right x a) at k) xs (ground arith) in
          rw (hit, apart, rest) refl
      | inr miss ↦
          let apart : exists_where (clash x) (update_where p f xs) ≡ false =
            exists_where-update p (clash x) (clash x) f (λ a k. k) (λ a k. rw (right x a) at k) xs
              (ground arith) in
          rw (miss, apart, rest) refl
    ]
