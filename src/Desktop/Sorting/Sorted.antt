-- ===== src/Desktop/Sorting/Sorted.antt =====
-- The profiles come out in order, and none is lost.
use mathlib.Core.List.{Perm}
use mathlib.Core.List.Perm
use laap.Base.{
  ℕ, All, All-weaken, List, [], arith, ◌∷◌, ◌≡◌, ◌≢◌, Bool-cases, inl, inr, true, false,
}
use laap.Desktop.Sorting.{
  Locale, Sign, SortOrder, Sortable, added_asc, added_desc, after, by_name, compare_numbers,
  compare_profiles, date, insert, last_played, name_asc, name_desc, or_else, rank_asc, rank_desc,
  rank_score, sort, sort_profiles, stands,
}
use laap.Desktop.Sorting.Order.{InOrder, compare_profiles-InOrder}
use laap.Desktop.Sorting.Comparisons.{
  Lawful, compare_numbers-Lawful, on-Lawful, opposite-Lawful, or_else-Lawful, ranked-Lawful,
  swapped-Lawful,
}

-- each profile may stand before all that come after it
abbrev pub IsSorted : (Sortable → Sortable → Type 0) → List Sortable → Type 0
IsSorted R [] = Unit
IsSorted R (x ∷ xs) = All (λ y. R x y) xs × IsSorted R xs

IsSorted-weaken :
    (R S : Sortable → Sortable → Type 0)
    → ((x y : Sortable) → R x y → S x y)
    → (xs : List Sortable) → IsSorted R xs
    → IsSorted S xs
IsSorted-weaken R S k [] h = tt
IsSorted-weaken R S k (x ∷ xs) h = (All-weaken (k x) xs h.0, IsSorted-weaken R S k xs h.1)

module _ (c : Sortable → Sortable → Sign) (l : Lawful c) where
  abbrev Stands : Sortable → Sortable → Type 0
  Stands x y = c x y ≢ after

  All-insert :
      (x a : Sortable) (xs : List Sortable)
      → c x a ≢ after
      → All (λ y. c x y ≢ after) xs
      → All (λ y. c x y ≢ after) (insert c a xs)
  unfolding insert
  All-insert x a [] h k = (h, tt)
  All-insert x a (y ∷ ys) h k = elim (Bool-cases (stands (c a y))) [
    | inl here ↦ rw here (h, k)
    | inr later ↦ rw later (k.0, All-insert x a ys h k.1)
  ]

  stands-ne : (a y : Sortable) → stands (c a y) ≡ true → c a y ≢ after
  stands-ne a y h = ground arith

  follows : (a y : Sortable) → stands (c a y) ≡ false → c y a ≢ after
  follows a y h = ground (arith, l.flipped a y)

  insert-IsSorted :
      (a : Sortable) (xs : List Sortable) → IsSorted Stands xs → IsSorted Stands (insert c a xs)
  unfolding insert
  insert-IsSorted a [] h = (tt, tt)
  insert-IsSorted a (y ∷ ys) h = elim (Bool-cases (stands (c a y))) [
    | inl here ↦
        let first = stands-ne a y here in
        rw here ((first, All-weaken (λ z k. l.chained a y z first k) ys h.0), h)
    | inr later ↦ rw later (All-insert y a ys (follows a y later) h.0, insert-IsSorted a ys h.1)
  ]

  sort-IsSorted : (xs : List Sortable) → IsSorted Stands (sort c xs)
  unfolding sort
  sort-IsSorted [] = tt
  sort-IsSorted (x ∷ xs) = insert-IsSorted x (sort c xs) (sort-IsSorted xs)

module _ (c : Sortable → Sortable → Sign) where
  insert-perm : (a : Sortable) (xs : List Sortable) → Perm (insert c a xs) (a ∷ xs)
  unfolding insert
  insert-perm a [] = Perm.refl _
  insert-perm a (y ∷ ys) = elim (Bool-cases (stands (c a y))) [
    | inl here ↦ rw here (Perm.refl _)
    | inr later ↦ rw later (Perm.trans (Perm.cons y (insert-perm a ys)) (Perm.swap a y ys))
  ]

  sort-perm : (xs : List Sortable) → Perm (sort c xs) xs
  unfolding sort
  sort-perm [] = Perm.refl _
  sort-perm (x ∷ xs) = Perm.trans (insert-perm x (sort c xs)) (Perm.cons x (sort-perm xs))

module _ (l : Locale) (names : Lawful l.compare_names) (ids : Lawful l.compare_ids) where
  by_name-Lawful : Lawful (by_name l)
  by_name-Lawful =
      or_else-Lawful (λ a b. l.compare_names a.name b.name) (λ a b. l.compare_ids a.id b.id)
        (on-Lawful (λ (a : Sortable). a.name) l.compare_names names)
        (on-Lawful (λ (a : Sortable). a.id) l.compare_ids ids)

  dated-Lawful :
      (f : Sortable → ℕ) → Lawful (λ a b. or_else (compare_numbers (f a) (f b)) (by_name l a b))
  dated-Lawful f =
      or_else-Lawful (λ a b. compare_numbers (f a) (f b)) (by_name l)
        (on-Lawful f compare_numbers compare_numbers-Lawful) by_name-Lawful

  late-Lawful :
      (f : Sortable → ℕ) → Lawful (λ a b. or_else (compare_numbers (f b) (f a)) (by_name l a b))
  late-Lawful f =
      or_else-Lawful (λ a b. compare_numbers (f b) (f a)) (by_name l)
        (swapped-Lawful (λ a b. compare_numbers (f a) (f b))
          (on-Lawful f compare_numbers compare_numbers-Lawful))
        by_name-Lawful

  compare_profiles-Lawful : (order : SortOrder) → Lawful (compare_profiles l order)
  unfolding compare_profiles
  compare_profiles-Lawful name_asc = by_name-Lawful
  compare_profiles-Lawful name_desc = opposite-Lawful (by_name l) by_name-Lawful
  compare_profiles-Lawful rank_asc =
      ranked-Lawful (λ a. rank_score l a.rank) compare_numbers (by_name l) compare_numbers-Lawful
        by_name-Lawful
  compare_profiles-Lawful rank_desc =
      ranked-Lawful (λ a. rank_score l a.rank) (λ x y. compare_numbers y x) (by_name l)
        (swapped-Lawful compare_numbers compare_numbers-Lawful) by_name-Lawful
  compare_profiles-Lawful last_played = late-Lawful (λ a. date l a.last_used_at)
  compare_profiles-Lawful added_desc = late-Lawful (λ a. date l a.created_at)
  compare_profiles-Lawful added_asc = dated-Lawful (λ a. date l a.created_at)

  -- Where the two collations are total preorders, `sortProfiles` returns the profiles that it is given, each as
  -- often, and each may stand before all that come after it: in the orders by rank the higher one is
  -- first, or the lower one, with those without a rank last; in the orders by time the later one is
  -- first, or the earlier one; in those by name the names ascend or descend; and profiles that are equal
  -- in that stand by name, and then by id.
  pub sort_profiles-IsSorted :
      (order : SortOrder) (profiles : List Sortable)
      → IsSorted (InOrder l order) (sort_profiles l order profiles)
        × Perm (sort_profiles l order profiles) profiles
  unfolding sort_profiles
  sort_profiles-IsSorted order profiles = (
    IsSorted-weaken _ (InOrder l order) (compare_profiles-InOrder l order) _
        (sort-IsSorted (compare_profiles l order) (compare_profiles-Lawful order) profiles),
    sort-perm (compare_profiles l order) profiles,
  )
