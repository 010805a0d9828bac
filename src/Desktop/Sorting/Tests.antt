-- ===== src/Desktop/Sorting/Tests.antt =====
-- Three profiles, under a collation by length.
use mathlib.Core.List.{Perm}
use laap.Base.{List, String, [], none, some, refl, ◌∷◌, ◌≡◌}
use laap.SecretBox.{js_length}
use laap.Desktop.Sorting.{
  Locale, Sortable, compare_numbers, compare_profiles, insert, rank_desc, rank_score, sort,
  sort_profiles,
}
use laap.Desktop.Sorting.Comparisons.{compare_numbers-Lawful, on-Lawful}
use laap.Desktop.Sorting.Order.{InOrder}
use laap.Desktop.Sorting.Sorted.{IsSorted, sort_profiles-IsSorted}

abbrev by_length : Locale
by_length = record {
  compare_names = λ a b. compare_numbers (js_length a) (js_length b);
  compare_ids = λ a b. compare_numbers (js_length a) (js_length b);
  parse_date = λ t. none;
}

abbrev profile : String → String → Sortable
profile id rank = record {
  id = id;
  name = id;
  rank = some rank;
  created_at = none;
  last_used_at = none;
}

abbrev three : List Sortable
three = profile "a" "Unranked" ∷ profile "b" "Gold IV" ∷ profile "c" "master" ∷ []

sort_profiles-IsSorted_example :
    IsSorted (InOrder by_length rank_desc) (sort_profiles by_length rank_desc three)
    × Perm (sort_profiles by_length rank_desc three) three
sort_profiles-IsSorted_example =
    sort_profiles-IsSorted by_length (on-Lawful js_length compare_numbers compare_numbers-Lawful)
      (on-Lawful js_length compare_numbers compare_numbers-Lawful) rank_desc three

gold : rank_score by_length (some "gold  iv") ≡ some 31
unfolding rank_score
gold = refl

no_division : rank_score by_length (some "Master II") ≡ none
unfolding rank_score
no_division = refl

best_first :
    sort_profiles by_length rank_desc three
    ≡ profile "c" "master" ∷ profile "b" "Gold IV" ∷ profile "a" "Unranked" ∷ []
unfolding sort_profiles sort insert compare_profiles rank_score
best_first = refl
