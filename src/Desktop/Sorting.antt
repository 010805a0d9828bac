-- ===== src/Desktop/Sorting.antt =====
-- The order of the profiles: apps/desktop/src/lib/sorting.ts. `localeCompare` and `Date.parse` are
-- parameters, with no date before 1970. A score is taken ten times over: it is `tier + value / 10` in the source.
pub mod Comparisons
pub mod Order
pub mod Sorted
mod Tests
use Prim.Native.Char.{code}
use Prim.Native.String
use mathlib.Core.Option
use laap.Text.{is_space, skip_spaces, trim}
use laap.Base.{
  Bool, List, Option, String, [], false, get_or, if◌then◌else◌, is_some, leb, ltb, nat_eq, none,
  some, suc, true, zero, ℕ, ◌&&◌, ◌*◌, ◌+◌, ◌==◌, ◌||◌, ◌∷◌,
}

-- the sign of what a comparison returns
pub data Sign : Type 0 where
  before same after : Sign

abbrev pub opposite : Sign → Sign
opposite before = after
opposite same = same
opposite after = before

-- `first || second`
abbrev pub or_else : Sign → Sign → Sign
or_else before s = before
or_else after s = after
or_else same s = s

-- the sign of `a - b`
abbrev pub compare_numbers : ℕ → ℕ → Sign
compare_numbers a b = if ltb a b then before else if ltb b a then after else same

pub data SortOrder : Type 0 where
  name_asc name_desc rank_desc rank_asc last_played added_desc added_asc : SortOrder

-- `Sortable`
pub record Sortable : Type 0 where
  pub id : String
  pub name : String
  pub rank : Option String
  pub created_at : Option String
  pub last_used_at : Option String

-- `localeCompare` with the options for names, and without for ids; `Date.parse`, with `none` for a text
-- that is no date
pub record Locale : Type 0 where
  pub compare_names : String → String → Sign
  pub compare_ids : String → String → Sign
  pub parse_date : String → Option ℕ

-- the groups of the rank's pattern: a tier, and a division where there is one
abbrev tiers : List String
tiers =
    "iron" ∷ "bronze" ∷ "silver" ∷ "gold" ∷ "platinum" ∷ "emerald" ∷ "diamond" ∷ "master"
    ∷ "grandmaster" ∷ "challenger" ∷ []

-- the flag `i` of a pattern of ASCII letters
abbrev fold : ℕ → ℕ
fold c = if leb 65 c && leb c 90 then c + 32 else c

abbrev eq_fold : String → String → Bool
eq_fold String.[] String.[] = true
eq_fold String.[] (String.◌∷◌ d t) = false
eq_fold (String.◌∷◌ c s) String.[] = false
eq_fold (String.◌∷◌ c s) (String.◌∷◌ d t) = nat_eq (fold (code c)) (fold (code d)) && eq_fold s t

-- the tier that the text names
abbrev index_of : String → List String → ℕ → Option ℕ
index_of t [] n = none
index_of t (x ∷ xs) n = let rest = index_of t xs (n + 1) in if eq_fold t x then some n else rest

-- the value of a division
abbrev division_value : String → Option ℕ
division_value d =
    if eq_fold d "i" || d == "1"
    then some 4
    else if eq_fold d "ii" || d == "2"
    then some 3
    else if eq_fold d "iii" || d == "3"
    then some 2
    else if eq_fold d "iv" || d == "4"
    then some 1
    else none

-- the first word, and what follows the spaces after it
abbrev first_word : String → String × Option String
first_word String.[] = ("", none)
first_word (String.◌∷◌ c s) =
    let (word, rest) = first_word s in
    if is_space (code c) then ("", some (skip_spaces s)) else (String.◌∷◌ c word, rest)

abbrev score : ℕ → Option String → Option ℕ
score tier none = some (10 * tier)
score tier (some division) =
    if leb 7 tier then none else Option.map (λ v. 10 * tier + v) (division_value division)

abbrev score_of : Option ℕ → Option String → Option ℕ
score_of none division = none
score_of (some tier) division = score tier division

-- `rankScore`, ten times over
unfoldable pub rank_score : Locale → Option String → Option ℕ
rank_score l none = none
rank_score l (some rank) =
    let (word, division) = first_word (trim rank) in score_of (index_of word tiers 0) division

-- `date`: 0 where there is none; an empty text is none too
abbrev pub date : Locale → Option String → ℕ
date l none = 0
date l (some t) = if t == "" then 0 else get_or (l.parse_date t) 0

-- the comparison by name, and by id where the names are the same
abbrev pub by_name : Locale → Sortable → Sortable → Sign
by_name l a b = or_else (l.compare_names a.name b.name) (l.compare_ids a.id b.id)

-- profiles without a rank come last
abbrev pub ranked : (ℕ → ℕ → Sign) → Option ℕ → Option ℕ → Sign → Sign
ranked compare none none tie = tie
ranked compare none (some y) tie = after
ranked compare (some x) none tie = before
ranked compare (some x) (some y) tie = or_else (compare x y) tie

-- the comparison that is given to `sort`
pub compare_profiles : Locale → SortOrder → Sortable → Sortable → Sign
compare_profiles l rank_desc a b =
    ranked (λ x y. compare_numbers y x) (rank_score l a.rank) (rank_score l b.rank) (by_name l a b)
compare_profiles l rank_asc a b =
    ranked compare_numbers (rank_score l a.rank) (rank_score l b.rank) (by_name l a b)
compare_profiles l name_desc a b = opposite (by_name l a b)
compare_profiles l last_played a b =
    or_else (compare_numbers (date l b.last_used_at) (date l a.last_used_at)) (by_name l a b)
compare_profiles l added_desc a b =
    or_else (compare_numbers (date l b.created_at) (date l a.created_at)) (by_name l a b)
compare_profiles l added_asc a b =
    or_else (compare_numbers (date l a.created_at) (date l b.created_at)) (by_name l a b)
compare_profiles l name_asc a b = by_name l a b

-- `sort` is stable: a profile stands before those after it that it is not to follow
abbrev stands : Sign → Bool
stands after = false
stands _ = true

pub insert : (Sortable → Sortable → Sign) → Sortable → List Sortable → List Sortable
insert compare a [] = a ∷ []
insert compare a (x ∷ xs) =
    let rest = insert compare a xs in if stands (compare a x) then a ∷ x ∷ xs else x ∷ rest

pub sort : (Sortable → Sortable → Sign) → List Sortable → List Sortable
sort compare [] = []
sort compare (x ∷ xs) = insert compare x (sort compare xs)

-- `sortProfiles`
pub sort_profiles : Locale → SortOrder → List Sortable → List Sortable
sort_profiles l order profiles = sort (compare_profiles l order) profiles
