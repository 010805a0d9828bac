-- ===== src/Leases/Release/Expired.antt =====
-- A heartbeat after the assignment has run out ends the lease, and says so.
use laap.Base.{String, false, none, refl, some, ◌≡◌}
use laap.Audit.{add_audit}
use laap.Db.{Moment}
use laap.Db.Queries.{has_admin_role, session_by_id, user_by_id}
use laap.Db.WellFormed.{WellFormed}
use laap.Exec.{
  Failure, after, ensure, err, gets, or_throw, pure, service_error, throw, transaction, ◌>>=◌,
}
use laap.Leases.Closed.{close_session-returns, closed_rows}
use laap.Leases.Release.{
  assignment_in_force, beat, beat_result, expire_lease, heartbeat_lease, held_by,
}
use laap.Schema.{Db, Session}
use laap.Types.{ReleaseReason, SessionRuntimeState, SessionStatus}

-- `new ServiceError('ASSIGNMENT_EXPIRED', 403)`
abbrev pub assignment_expired_error : Failure
assignment_expired_error = service_error "ASSIGNMENT_EXPIRED" 403

-- In a database within the constraints of the schema: the holder of a running session, who is no
-- administrator and has no assignment of its account in force, as the statement compares the texts of
-- the times, gets ASSIGNMENT_EXPIRED from a heartbeat in any runtime state, and the end of the session
-- is committed: each row with its id has status 'ended' and reason 'error', and others are as before.
pub heartbeat_lease-expired :
    (m : Moment) (user_id session_id : String) (state : SessionRuntimeState) (s : Session) (db : Db)
    → WellFormed db
    → held_by user_id (session_by_id session_id db) ≡ some s
    → has_admin_role (user_by_id user_id db) ≡ false
    → assignment_in_force m.now s.account_id user_id db ≡ none
    → (db' : Db) × (heartbeat_lease m user_id session_id state db
        ≡ err assignment_expired_error db')
      × (db'.sessions ≡ closed_rows m.now SessionStatus.ended ReleaseReason.error s.id db)
unfolding heartbeat_lease beat expire_lease transaction ◌>>=◌ beat_result gets ensure or_throw
    add_audit pure throw
heartbeat_lease-expired m user_id session_id state s db w mine operator lapsed =
    let returns =
      close_session-returns m.now SessionStatus.ended ReleaseReason.error s.id db refl refl
        w.sessions in
    (
      after (expire_lease m user_id s db),
      rw (mine, operator, lapsed, returns) refl,
      rw returns refl,
    )
