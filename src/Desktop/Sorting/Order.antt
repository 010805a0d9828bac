-- ===== src/Desktop/Sorting/Order.antt =====
-- The orders that a user may choose (`SortOrder` of apps/desktop/src/lib/sorting.ts), each by what it asks of
-- two profiles, and that the comparisons of the code respect them.
use laap.Base.{sym, ℕ, Option, none, some, refl, arith, inl, inr, ◌≡◌, ◌≢◌, ◌<◌, ◌⊎◌}
use laap.Desktop.Sorting.{
  Locale, Sign, SortOrder, Sortable, added_asc, added_desc, after, before, by_name, compare_numbers,
  compare_profiles, date, last_played, name_asc, name_desc, opposite, or_else, rank_asc, rank_desc,
  rank_score, ranked, same,
}

-- by the alphabet, and by id where the names are the same
abbrev pub NameUp : Locale → Sortable → Sortable → Type 0
NameUp l a b =
    (l.compare_names a.name b.name ≡ before)
    ⊎ ((l.compare_names a.name b.name ≡ same) × (l.compare_ids a.id b.id ≢ after))

abbrev pub NameDown : Locale → Sortable → Sortable → Type 0
NameDown l a b =
    (l.compare_names a.name b.name ≡ after)
    ⊎ ((l.compare_names a.name b.name ≡ same) × (l.compare_ids a.id b.id ≢ before))

-- the greater number first, and `Tie` where they are the same
abbrev pub Down : ℕ → ℕ → Type 0 → Type 0
Down x y Tie = (y < x) ⊎ ((x ≡ y) × Tie)

abbrev pub Up : ℕ → ℕ → Type 0 → Type 0
Up x y Tie = (x < y) ⊎ ((x ≡ y) × Tie)

-- a profile without a rank after all that have one, and those without by `Tie`
abbrev pub Ranked : (ℕ → ℕ → Type 0 → Type 0) → Option ℕ → Option ℕ → Type 0 → Type 0
Ranked Order none none Tie = Tie
Ranked Order none (some y) Tie = ⊥
Ranked Order (some x) none Tie = Unit
Ranked Order (some x) (some y) Tie = Order x y Tie

-- that the first may stand before the second
abbrev pub InOrder : Locale → SortOrder → Sortable → Sortable → Type 0
InOrder l name_asc a b = NameUp l a b
InOrder l name_desc a b = NameDown l a b
InOrder l rank_desc a b = Ranked Down (rank_score l a.rank) (rank_score l b.rank) (NameUp l a b)
InOrder l rank_asc a b = Ranked Up (rank_score l a.rank) (rank_score l b.rank) (NameUp l a b)
InOrder l last_played a b = Down (date l a.last_used_at) (date l b.last_used_at) (NameUp l a b)
InOrder l added_desc a b = Down (date l a.created_at) (date l b.created_at) (NameUp l a b)
InOrder l added_asc a b = Up (date l a.created_at) (date l b.created_at) (NameUp l a b)

or_else-cases : (s t : Sign) → or_else s t ≢ after → (s ≡ before) ⊎ ((s ≡ same) × (t ≢ after))
or_else-cases before t h = inl refl
or_else-cases same t h = inr (refl, h)
or_else-cases after t h = absurd (h refl)

opposite-cases :
    (s t : Sign) → opposite (or_else s t) ≢ after → (s ≡ after) ⊎ ((s ≡ same) × (t ≢ before))
opposite-cases after t h = inl refl
opposite-cases same t h = inr (refl, λ e. h (rw e refl))
opposite-cases before t h = absurd (h refl)

compare-before : (x y : ℕ) → compare_numbers x y ≡ before → x < y
compare-before x y h = ground arith

compare-same : (x y : ℕ) → compare_numbers x y ≡ same → x ≡ y
compare-same x y h = ground arith

module _ (l : Locale) (a b : Sortable) where
  by_name-Up : by_name l a b ≢ after → NameUp l a b
  by_name-Up h = or_else-cases (l.compare_names a.name b.name) (l.compare_ids a.id b.id) h

  number-Up :
      (x y : ℕ) → or_else (compare_numbers x y) (by_name l a b) ≢ after → Up x y (NameUp l a b)
  number-Up x y h = elim (or_else-cases (compare_numbers x y) (by_name l a b) h) [
    | inl less ↦ inl (compare-before x y less)
    | inr (equal, tie) ↦ inr (compare-same x y equal, by_name-Up tie)
  ]

  number-Down :
      (x y : ℕ) → or_else (compare_numbers y x) (by_name l a b) ≢ after → Down x y (NameUp l a b)
  number-Down x y h = elim (or_else-cases (compare_numbers y x) (by_name l a b) h) [
    | inl more ↦ inl (compare-before y x more)
    | inr (equal, tie) ↦ inr (sym (compare-same y x equal), by_name-Up tie)
  ]

  rank-Up :
      (x y : Option ℕ)
      → ranked compare_numbers x y (by_name l a b) ≢ after
      → Ranked Up x y (NameUp l a b)
  rank-Up none none h = by_name-Up h
  rank-Up none (some y) h = h refl
  rank-Up (some x) none h = tt
  rank-Up (some x) (some y) h = number-Up x y h

  rank-Down :
      (x y : Option ℕ)
      → ranked (λ n m. compare_numbers m n) x y (by_name l a b) ≢ after
      → Ranked Down x y (NameUp l a b)
  rank-Down none none h = by_name-Up h
  rank-Down none (some y) h = h refl
  rank-Down (some x) none h = tt
  rank-Down (some x) (some y) h = number-Down x y h

-- two profiles that the code's comparison does not put the other way round
pub compare_profiles-InOrder :
    (l : Locale) (order : SortOrder) (a b : Sortable)
    → compare_profiles l order a b ≢ after
    → InOrder l order a b
unfolding compare_profiles
compare_profiles-InOrder l name_asc a b h = by_name-Up l a b h
compare_profiles-InOrder l name_desc a b h =
    opposite-cases (l.compare_names a.name b.name) (l.compare_ids a.id b.id) h
compare_profiles-InOrder l rank_desc a b h =
    rank-Down l a b (rank_score l a.rank) (rank_score l b.rank) h
compare_profiles-InOrder l rank_asc a b h =
    rank-Up l a b (rank_score l a.rank) (rank_score l b.rank) h
compare_profiles-InOrder l last_played a b h =
    number-Down l a b (date l a.last_used_at) (date l b.last_used_at) h
compare_profiles-InOrder l added_desc a b h =
    number-Down l a b (date l a.created_at) (date l b.created_at) h
compare_profiles-InOrder l added_asc a b h =
    number-Up l a b (date l a.created_at) (date l b.created_at) h
