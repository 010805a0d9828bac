-- ===== src/Base/Rows.antt =====
-- Tables as lists of rows: what SELECT, UPDATE, DELETE and COUNT do with a WHERE clause.
use Prim.Native.Nat.{ℕ, suc}
use mathlib.Core.Path.{◌≡◌, refl}
use mathlib.Core.Bool.{Bool, true, false, not, ◌&&◌, ◌||◌}
use mathlib.Core.Option.{Option, none, some}
use mathlib.Core.List.{List, [], ◌∷◌, ◌++◌}
use native.Mathlib.Omega.{arith}
use mathlib.Core.Logic.{inl, inr}
use laap.Base.{All, Bool-cases, all, if◌then◌else◌}

module _ {ℓ} {A : Type ℓ} where
  -- the first row that meets the clause
  unfoldable pub find_where : (A → Bool) → List A → Option A
  find_where p [] = none
  find_where p (x ∷ xs) = if p x then some x else find_where p xs

  unfoldable pub select_where : (A → Bool) → List A → List A
  select_where p [] = []
  select_where p (x ∷ xs) = let rest = select_where p xs in if p x then x ∷ rest else rest

  unfoldable pub delete_where : (A → Bool) → List A → List A
  delete_where p [] = []
  delete_where p (x ∷ xs) = let rest = delete_where p xs in if p x then rest else x ∷ rest

  unfoldable pub update_where : (A → Bool) → (A → A) → List A → List A
  update_where p f [] = []
  update_where p f (x ∷ xs) = (if p x then f x else x) ∷ update_where p f xs

  unfoldable pub exists_where : (A → Bool) → List A → Bool
  exists_where p [] = false
  exists_where p (x ∷ xs) = p x || exists_where p xs

  unfoldable pub count_where : (A → Bool) → List A → ℕ
  count_where p [] = 0
  count_where p (x ∷ xs) = let rest = count_where p xs in if p x then suc rest else rest

  -- no two rows clash: a UNIQUE constraint, or a unique index
  unfoldable pub distinct_by : (A → A → Bool) → List A → Bool
  unfolding exists_where
  distinct_by clash [] = true
  distinct_by clash (x ∷ xs) = not (exists_where (clash x) xs) && distinct_by clash xs

module _ {ℓ} {A : Type ℓ} (p : A → Bool) where
  pub find_where-holds : (xs : List A) (a : A) → find_where p xs ≡ some a → p a ≡ true
  unfolding find_where
  find_where-holds [] a h = cc
  find_where-holds (x ∷ xs) a h = ground (arith, find_where-holds xs a)

  pub find_where-none : (xs : List A) → find_where p xs ≡ none → All (λ x. p x ≡ false) xs
  unfolding find_where
  find_where-none [] h = tt
  find_where-none (x ∷ xs) h = ground (arith, find_where-none xs)

  pub find_where-of-All : (xs : List A) → All (λ x. p x ≡ false) xs → find_where p xs ≡ none
  unfolding find_where
  find_where-of-All [] h = refl
  find_where-of-All (x ∷ xs) h = rw h.0 (find_where-of-All xs h.1)

  pub find_where-append :
      (xs : List A) (a : A)
      → find_where p xs ≡ none
      → p a ≡ true
      → find_where p (xs ++ a ∷ []) ≡ some a
  unfolding find_where
  find_where-append [] a h k = rw k
  find_where-append (x ∷ xs) a h k = ground (arith, find_where-append xs a)

  pub find_where-append_old :
      (xs : List A) (a b : A) → find_where p xs ≡ some b → find_where p (xs ++ a ∷ []) ≡ some b
  unfolding find_where
  find_where-append_old [] a b h = cc
  find_where-append_old (x ∷ xs) a b h = ground (arith, find_where-append_old xs a b)

  pub find_where-delete : (xs : List A) → find_where p (delete_where p xs) ≡ none
  unfolding find_where delete_where
  find_where-delete [] = refl
  find_where-delete (x ∷ xs) = ground (arith, find_where-delete xs)

module _ {ℓ κ} {A : Type ℓ} (P : A → Type κ) (p : A → Bool) where
  pub find_where-All : (xs : List A) (a : A) → find_where p xs ≡ some a → All P xs → P a
  unfolding find_where
  find_where-All [] a e h = cc
  find_where-All (x ∷ xs) a e h = elim (Bool-cases (p x)) [
    | inl hit ↦ let same : x ≡ a = ground arith in rw (← same) h.0
    | inr miss ↦ find_where-All xs a (ground arith) h.1
  ]

  pub All-select : (xs : List A) → All P xs → All P (select_where p xs)
  unfolding select_where
  All-select [] h = tt
  All-select (x ∷ xs) h = ground (arith, All-select xs h.1)

  pub All-delete : (xs : List A) → All P xs → All P (delete_where p xs)
  unfolding delete_where
  All-delete [] h = tt
  All-delete (x ∷ xs) h = ground (arith, All-delete xs h.1)

  -- Rows that meet the clause are checked anew; the others stand.
  pub All-update :
      (f : A → A)
      → ((a : A) → p a ≡ true → P a → P (f a))
      → (xs : List A) → All P xs
      → All P (update_where p f xs)
  unfolding update_where
  All-update f step [] h = tt
  All-update f step (x ∷ xs) h = elim (Bool-cases (p x)) [
    | inl hit ↦ rw hit (step x hit h.0, All-update f step xs h.1)
    | inr miss ↦ rw miss (h.0, All-update f step xs h.1)
  ]

module _ {ℓ} {A : Type ℓ} where
  exists_where-delete :
      (p q : A → Bool) (xs : List A)
      → exists_where q xs ≡ false
      → exists_where q (delete_where p xs) ≡ false
  unfolding exists_where delete_where
  exists_where-delete p q [] h = refl
  exists_where-delete p q (x ∷ xs) h = ground (arith, exists_where-delete p q xs)

  pub distinct_by-delete :
      (clash : A → A → Bool) (p : A → Bool) (xs : List A)
      → distinct_by clash xs ≡ true
      → distinct_by clash (delete_where p xs) ≡ true
  unfolding distinct_by delete_where
  distinct_by-delete clash p [] h = refl
  distinct_by-delete clash p (x ∷ xs) h =
      ground (arith, exists_where-delete p (clash x) xs, distinct_by-delete clash p xs)

  pub all-delete :
      (q p : A → Bool) (xs : List A) → all q xs ≡ true → all q (delete_where p xs) ≡ true
  unfolding delete_where
  all-delete q p [] h = refl
  all-delete q p (x ∷ xs) h = ground (arith, all-delete q p xs)
