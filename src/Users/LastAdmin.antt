-- ===== src/Users/LastAdmin.antt =====
-- `updateUser` and `resetUserPassword` leave an active administrator.
use laap.Base.{Bool, Bool-cases, Option, String, arith, false, inl, inr, ltb, some, true, ◌==◌, ◌≡◌}
use laap.Db.{Moment}
use laap.Db.Queries.{user_by_id}
use laap.Db.WellFormed.{WellFormed}
use laap.Exec.{after, ensure, gets, when, ◌>>=◌}
use laap.Exec.Keeps.{Keeps, Keeps-when, keeps_rules}
use laap.Exec.Yields.{
  Keeps-outcome, Yields, Yields-bind, Yields-ensure, Yields-gets, Yields-of_Keeps, Yields-or_throw,
  transaction-after,
}
use laap.Schema.{Db, User, users_ok}
use laap.Types.{ApiUser}
use laap.Users.{
  Texts, UserPatch, active_admins, commit_reset, guard_last_admin, update_user, write_user,
}
use laap.Users.HasAdmin.{
  HasAdmin, HasAdmin-statements, is_leaving, update_users-HasAdmin, write_user-HasAdmin,
}
use laap.Users.Statements.{end_sessions-Keeps}

-- What the guard has read, at the database that it hands on.
guard_last_admin-Yields :
    (leaving : Bool) (P : Db → Type 0) (db : Db)
    → P db
    → Yields
        (λ _ db'. P db' × (leaving ≡ true → ltb 1 (active_admins db') ≡ true))
        (guard_last_admin leaving db)
unfolding guard_last_admin when ◌>>=◌ gets ensure
guard_last_admin-Yields true P db h = elim (Bool-cases (ltb 1 (active_admins db))) [
  | inl enough ↦ rw enough (h, λ _. enough)
  | inr few ↦ rw few tt
]
guard_last_admin-Yields false P db h = (h, λ k. absurd (ground arith))

-- the row is there, and its table within the constraints
record Known (user_id : String) (current : User) (db : Db) : Type 0 where
  pub valid : users_ok db.users ≡ true
  pub admin : HasAdmin db
  pub found : user_by_id user_id db ≡ some current

pub update_user-HasAdmin :
    (m : Moment) (actor_id user_id : String) (input : UserPatch) (db : Db)
    → WellFormed db
    → HasAdmin db
    → HasAdmin (after (update_user m actor_id user_id input db))
unfolding update_user gets
update_user-HasAdmin m actor_id user_id input db w h =
    let Q : Option ApiUser → Db → Type 0 = λ _. HasAdmin in
    let kept : Unit {0} → Db → Type 0 = λ _. HasAdmin in
    transaction-after HasAdmin _ db h (
      Yields-gets Q (user_by_id user_id) _ db (
        Yields-or_throw Q (user_by_id user_id db) _ _ db λ current found.
          Yields-ensure Q _ _ _ db λ _.
            Yields-bind _ Q _ _ db
              (guard_last_admin-Yields (is_leaving input current) (Known user_id current) db
                (record { valid = w.users; admin = h; found = found }))
              λ _ db1 (known, guard).
                Yields-bind kept Q _ _ db1
                  (Keeps-outcome HasAdmin (write_user m user_id input db1) (
                    write_user-HasAdmin m user_id input db1 current known.valid known.admin
                      known.found guard))
                  λ _ db2 h2.
                    Yields-bind kept Q _ _ db2
                      (Yields-of_Keeps HasAdmin _
                        (Keeps-when _ _ (end_sessions-Keeps HasAdmin-statements m actor_id user_id))
                        db2 h2)
                      λ _ db3 h3.
                        Yields-bind kept Q _ _ db3
                          (Yields-of_Keeps HasAdmin _ (HasAdmin-statements.audit m _ _ _ _ _) db3
                            h3)
                          λ _ db4 h4. h4))

pub commit_reset-HasAdmin :
    (t : Texts) (m : Moment) (actor_id user_id password : String)
    → Keeps HasAdmin (commit_reset t m actor_id user_id password)
unfolding commit_reset
commit_reset-HasAdmin t m actor_id user_id password =
    let write =
      update_users-HasAdmin (λ u. u.id == user_id)
        (λ u. record u { password_hash = t.hash password; updated_at = m.now }) (λ u k. k) in
    search (keeps_rules, HasAdmin-statements.audit)
