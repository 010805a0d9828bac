-- ===== src/Assignments/Tests.antt =====
-- Runs of the assignments on the sample database.
use laap.Base.{refl}
use laap.Assignments.{end_unassigned, revoke_assignment}
use laap.Assignments.Revoked.{HasLeft, revoke_assignment-HasLeft}
use laap.Audit.{add_audit}
use laap.Base.Rows.{distinct_by, exists_where, find_where, update_where}
use laap.Db.{update_assignments, update_sessions, write_assignments, write_sessions}
use laap.Exec.{after, gets, or_throw, pure, transaction, ◌>>=◌}
use laap.Leases.{close_session}
use laap.Samples.{at_time, leased}
use laap.Samples.Valid.{leased-WellFormed}
use laap.Schema.{Db, assignments_ok, sessions_ok}

abbrev withdrawn : Db
withdrawn = after (revoke_assignment (at_time 1070000 "r2") "u0" "a1" "u1" leased)

revoke_assignment-HasLeft_example : HasLeft "a1" "u1" withdrawn
unfolding revoke_assignment transaction ◌>>=◌ find_where update_where end_unassigned close_session
    update_sessions write_sessions sessions_ok add_audit update_assignments write_assignments
    assignments_ok gets or_throw distinct_by exists_where pure
revoke_assignment-HasLeft_example =
    revoke_assignment-HasLeft (at_time 1070000 "r2") "u0" "a1" "u1" leased withdrawn
      leased-WellFormed refl
