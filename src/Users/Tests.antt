-- ===== src/Users/Tests.antt =====
-- Runs of the users' service on the sample database.
use laap.Base.{none, refl, some}
use laap.Audit.{add_audit}
use laap.Base.Rows.{distinct_by, exists_where, find_where, select_where, update_where}
use laap.Db.{update_sessions, update_users, write_sessions, write_users}
use laap.Exec.{after, ensure, for_each, gets, or_throw, transaction, when, ◌>>=◌}
use laap.Leases.{close_session}
use laap.Samples.{at_time, leased, maya}
use laap.Schema.{Db, sessions_ok, users_ok}
use laap.Types.{UserStatus}
use laap.Users.{
  UserPatch, end_deactivated, end_sessions, find_user_by_id, guard_last_admin, public_user,
  update_user, updated, write_user,
}
use laap.Users.Deactivated.{HasNoLease, update_user-HasNoLease}

abbrev suspend : UserPatch
suspend = record { display_name = none; role = none; status = some UserStatus.suspended }

abbrev suspended : Db
suspended = after (update_user (at_time 1070000 "r2") "u0" "u1" suspend leased)

update_user-HasNoLease_example : HasNoLease "u1" suspended
unfolding update_user transaction ◌>>=◌ for_each find_where select_where update_where
    end_deactivated end_sessions close_session update_sessions write_sessions sessions_ok add_audit
    update_users write_users users_ok gets ensure or_throw when distinct_by exists_where
    guard_last_admin write_user find_user_by_id
update_user-HasNoLease_example =
    update_user-HasNoLease (at_time 1070000 "r2") "u0" "u1" suspend
      (some (public_user (updated 1070000 suspend maya))) leased suspended refl refl
