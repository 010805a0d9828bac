-- ===== src/Users/HasAdmin.antt =====
-- The guard on the last administrator: while it stands, someone can administer.
use laap.Base.{
  All, All-tabulate, All-weaken, Bool, Bool-cases, List, String, [], arith, eq_iff, false, inl, inr,
  length, ltb, refl, some, true, true-ne-false, ℕ, ◌&&◌, ◌++◌, ◌+◌, ◌==◌, ◌||◌, ◌∷◌, ◌≡◌, ◌≤◌,
}
use laap.Base.Keys.{exists_where-false, find_where_unique}
use laap.Base.Rows.{count_where, distinct_by, update_where}
use laap.Db.{Moment, update_users}
use laap.Db.Queries.{user_by_id}
use laap.Db.Writes.{write_users_after}
use laap.Exec.{after, when}
use laap.Exec.Keeps.{Keeps}
use laap.Schema.{Db, User, users_ok}
use laap.Statements.{Statements, statements_of_users}
use laap.Users.{
  UserPatch, active_admins, deactivates, demotes, is_active_admin, updated, updated_fields,
  write_user,
}

-- an active administrator is left
abbrev pub has_admin : List User → Bool
has_admin users = ltb 0 (count_where is_active_admin users)

unfoldable pub HasAdmin : Db → Type 0
HasAdmin db = has_admin db.users ≡ true

count_where-append :
    (p : User → Bool) (row : User) (xs : List User)
    → ltb 0 (count_where p xs) ≡ true
    → ltb 0 (count_where p (xs ++ row ∷ [])) ≡ true
unfolding count_where
count_where-append p row [] h = ground (arith, h)
count_where-append p row (x ∷ xs) h = ground (arith, count_where-append p row xs)

pub HasAdmin-statements : Statements HasAdmin
unfolding HasAdmin
HasAdmin-statements =
    statements_of_users (λ users. has_admin users ≡ true) (count_where-append is_active_admin)

-- A write that demotes none of the rows.
count_where-kept :
    (p q : User → Bool) (f : User → User) (xs : List User)
    → All (λ u. q u ≡ true → p u ≡ true → p (f u) ≡ true) xs
    → count_where p xs ≤ count_where p (update_where q f xs)
unfolding count_where update_where
count_where-kept p q f [] h = omega arith
count_where-kept p q f (x ∷ xs) h =
    let rest = count_where-kept p q f xs h.1 in
    let keep : q x ≡ true → p x ≡ true → p (f x) ≡ true = h.0 in ground (arith, keep)

-- A write by a key that names one row takes away one at most.
count_where-unmatched :
    (p q : User → Bool) (f : User → User) (xs : List User)
    → All (λ x. q x ≡ false) xs
    → count_where p (update_where q f xs) ≡ count_where p xs
unfolding count_where update_where
count_where-unmatched p q f [] h = refl
count_where-unmatched p q f (x ∷ xs) h =
    let rest = count_where-unmatched p q f xs h.1 in rw h.0 (ground arith)

count_where-update_one :
    (p q : User → Bool) (f : User → User) (clash : User → User → Bool)
    → ((a b : User) → q a ≡ true → q b ≡ true → clash a b ≡ true)
    → (xs : List User) → distinct_by clash xs ≡ true
    → count_where p xs ≤ count_where p (update_where q f xs) + 1
unfolding count_where update_where distinct_by
count_where-update_one p q f clash both [] d = omega arith
count_where-update_one p q f clash both (x ∷ xs) d = elim (Bool-cases (q x)) [
  | inl hit ↦
      let apart : All (λ y. clash x y ≡ false) xs =
        exists_where-false (clash x) xs (ground arith) in
      let others : All (λ y. q y ≡ false) xs =
        All-weaken {P = λ y. clash x y ≡ false}
          (λ y k. elim (Bool-cases (q y)) [
            | inl also ↦ absurd (true-ne-false (both x y hit also) k)
            | inr other ↦ other
          ])
          xs apart in
      let rest = count_where-unmatched p q f xs others in rw hit (ground (arith, rest))
  | inr miss ↦
      let rest = count_where-update_one p q f clash both xs (ground arith) in
      rw miss (ground (arith, rest))
]

-- the change would take an active administrator away
abbrev pub is_leaving : UserPatch → User → Bool
is_leaving input u = is_active_admin u && (demotes input.role || deactivates input.status)

stays_admin :
    (now : ℕ) (input : UserPatch) (u : User)
    → is_leaving input u ≡ false
    → is_active_admin u ≡ true
    → is_active_admin (updated now input u) ≡ true
stays_admin now input u stays h = ground arith

same_key :
    (user_id : String) (a b : User)
    → (a.id == user_id) ≡ true
    → (b.id == user_id) ≡ true
    → (a.id == b.id || a.email == b.email) ≡ true
same_key user_id a b p q =
    ground (arith, eq_iff a.id user_id, eq_iff b.id user_id, eq_iff a.id b.id)

user_unique :
    (user_id : String) (db : Db) (current : User)
    → users_ok db.users ≡ true
    → user_by_id user_id db ≡ some current
    → All (λ u. (u.id == user_id) ≡ true → u ≡ current) db.users
unfolding users_ok
user_unique user_id db current valid found =
    find_where_unique (λ u. u.id == user_id) _ (same_key user_id) db.users current valid found

rewritten_has_admin :
    (now : ℕ) (user_id : String) (input : UserPatch) (db : Db) (current : User)
    → users_ok db.users ≡ true
    → HasAdmin db
    → user_by_id user_id db ≡ some current
    → (is_leaving input current ≡ true → ltb 1 (active_admins db) ≡ true)
    → has_admin (update_where (λ u. u.id == user_id) (updated now input) db.users) ≡ true
unfolding HasAdmin users_ok active_admins
rewritten_has_admin now user_id input db current valid h found guard =
    elim (Bool-cases (is_leaving input current)) [
      | inl leaving ↦
          let one =
            count_where-update_one is_active_admin (λ u. u.id == user_id) (updated now input)
              (λ a b. a.id == b.id || a.email == b.email) (same_key user_id) db.users valid in
          let enough = guard leaving in ground arith
      | inr stays ↦
          let kept =
            count_where-kept is_active_admin (λ u. u.id == user_id) (updated now input) db.users
              (All-weaken {P = λ u. (u.id == user_id) ≡ true → u ≡ current}
                (λ u same hit. rw (same hit) (stays_admin now input current stays)) db.users
                (user_unique user_id db current valid found)) in
          ground arith
    ]

pub write_user-HasAdmin :
    (m : Moment) (user_id : String) (input : UserPatch) (db : Db) (current : User)
    → users_ok db.users ≡ true
    → HasAdmin db
    → user_by_id user_id db ≡ some current
    → (is_leaving input current ≡ true → ltb 1 (active_admins db) ≡ true)
    → HasAdmin (after (write_user m user_id input db))
unfolding write_user when update_users HasAdmin
write_user-HasAdmin m user_id input db current valid h found guard =
    let new =
      write_users_after HasAdmin db h
        (update_where (λ u. u.id == user_id) (updated m.now input) db.users)
        (rewritten_has_admin m.now user_id input db current valid h found guard) in
    elim (Bool-cases (ltb 0 (length (updated_fields input)))) [
      | inl some_field ↦ rw some_field new
      | inr nothing ↦ rw nothing h
    ]

-- A write to other columns.
pub update_users-HasAdmin :
    (p : User → Bool) (f : User → User)
    → ((u : User) → is_active_admin u ≡ true → is_active_admin (f u) ≡ true)
    → Keeps HasAdmin (update_users p f)
unfolding update_users HasAdmin
update_users-HasAdmin p f keep = record {
  at = λ db h.
      let kept =
        count_where-kept is_active_admin p f db.users (All-tabulate (λ u _. keep u) db.users) in
      write_users_after HasAdmin db h (update_where p f db.users) (ground arith);
}
