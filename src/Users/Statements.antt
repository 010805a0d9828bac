-- ===== src/Users/Statements.antt =====
-- What an invariant of every statement gives for this service.
use laap.Base.{Bool, String}
use laap.Db.{Moment, update_users}
use laap.Exec.Keeps.{Keeps, keeps_rules}
use laap.Leases.Frame.{ended}
use laap.Schema.{Db, Session, User}
use laap.Statements.{Statements, statements-Frame}
use laap.Users.{
  Texts, UserInput, UserPatch, authenticate, check_new_user, commit_new_user, commit_reset,
  create_user, end_deactivated, end_sessions, guard_last_admin, update_user, write_user,
}

pub check_new_user-Keeps :
    (P : Db → Type 0) (t : Texts) (input : UserInput) → Keeps P (check_new_user t input)
unfolding check_new_user
check_new_user-Keeps P t input = search keeps_rules

pub guard_last_admin-Keeps : (P : Db → Type 0) (leaving : Bool) → Keeps P (guard_last_admin leaving)
unfolding guard_last_admin
guard_last_admin-Keeps P leaving = search keeps_rules

pub authenticate_kept :
    (P : Db → Type 0) (t : Texts) (email password : String)
    → Keeps P (authenticate t email password)
unfolding authenticate
authenticate_kept P t email password = search keeps_rules

module _ {P : Db → Type 0} (st : Statements P) where
  pub commit_new_user-Keeps :
      (t : Texts) (m : Moment) (actor_id : String) (input : UserInput)
      → Keeps P (commit_new_user t m actor_id input)
  unfolding commit_new_user
  commit_new_user-Keeps t m actor_id input = search (keeps_rules, st.audit, st.user) depth 10

  pub create_user-Keeps :
      (t : Texts) (m : Moment) (actor_id : String) (input : UserInput)
      → Keeps P (create_user t m actor_id input)
  unfolding create_user
  create_user-Keeps t m actor_id input =
      search (keeps_rules, check_new_user-Keeps, commit_new_user-Keeps)

  end_deactivated-Keeps :
      (m : Moment) (actor_id : String) (s : Session) → Keeps P (end_deactivated m actor_id s)
  unfolding end_deactivated
  end_deactivated-Keeps m actor_id s = search (keeps_rules, st.audit, ended (statements-Frame st))

  pub end_sessions-Keeps :
      (m : Moment) (actor_id user_id : String) → Keeps P (end_sessions m actor_id user_id)
  unfolding end_sessions
  end_sessions-Keeps m actor_id user_id = search (keeps_rules, end_deactivated-Keeps)

module _ {P : Db → Type 0} (st : Statements P)
    (users : (p : User → Bool) (f : User → User) → Keeps P (update_users p f)) where
  write_user-Keeps :
      (m : Moment) (user_id : String) (input : UserPatch) → Keeps P (write_user m user_id input)
  unfolding write_user
  write_user-Keeps m user_id input = search (keeps_rules, users)

  pub update_user-Keeps :
      (m : Moment) (actor_id user_id : String) (input : UserPatch)
      → Keeps P (update_user m actor_id user_id input)
  unfolding update_user
  update_user-Keeps m actor_id user_id input =
      search
        (keeps_rules, st.audit, write_user-Keeps, guard_last_admin-Keeps, end_sessions-Keeps st)
        depth 20

  pub commit_reset-Keeps :
      (t : Texts) (m : Moment) (actor_id user_id password : String)
      → Keeps P (commit_reset t m actor_id user_id password)
  unfolding commit_reset
  commit_reset-Keeps t m actor_id user_id password = search (keeps_rules, st.audit, users)
