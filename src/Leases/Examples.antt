-- ===== src/Leases/Examples.antt =====
-- The theorems of the lease service at the sample database.
use laap.Base.{All, [], false, length, refl, ◌∷◌, ◌≡◌}
use laap.Audit.{add_audit}
use laap.Base.Rows.{distinct_by, exists_where, find_where, select_where, update_where}
use laap.Db.{insert_session, update_sessions, write_sessions}
use laap.Exec.{after, constraint, err, for_each, ok, transaction, ◌>>=◌}
use laap.Leases.{
  acquire_lease, claim_account, close_session, is_stale, reap_session, reap_stale_sessions,
  request_lease, start_session,
}
use laap.Leases.Closed.{closed_rows}
use laap.Leases.Grant.{Entitled, Granted, acquire_lease-Granted}
use laap.Leases.Reaper.{reap_stale_sessions-cleans}
use laap.Leases.Release.{force_release_account, heartbeat_lease}
use laap.Leases.Release.Expired.{assignment_expired_error, heartbeat_lease-expired}
use laap.Leases.Release.Forced.{IsFree, force_release_account-frees}
use laap.Leases.Timeout.{acquire_lease-lapsed}
use laap.Samples.{admin_user, at_time, held, leased, start, unsigned}
use laap.Samples.Valid.{leased-WellFormed}
use laap.Schema.{Db, Session, sessions_ok}
use laap.Types.{ApiUser, ReleaseReason, SessionRuntimeState, SessionStatus}
use laap.Users.{public_user}

abbrev granted : Db
granted = after (acquire_lease (at_time 1000000 "s1") "u1" "a1" "d1" unsigned start)

acquire_lease-Granted_example :
    Granted
      (at_time 1000000 "s1")
      "u1"
      "a1"
      "d1"
      (record { session_id = "s1"; is_reconnect = false })
      granted
unfolding acquire_lease request_lease claim_account start_session reap_stale_sessions reap_session
    ◌>>=◌ transaction for_each insert_session write_sessions close_session update_sessions add_audit
    find_where select_where update_where distinct_by exists_where sessions_ok
acquire_lease-Granted_example =
    acquire_lease-Granted (at_time 1000000 "s1") "u1" "a1" "d1" unsigned
      (record { session_id = "s1"; is_reconnect = false }) start granted refl

reap_stale_sessions-cleans_example :
    (db' : Db) × (reap_stale_sessions (at_time 2000000 "r") leased
      ≡ ok (length (select_where (is_stale 2000000) leased.sessions)) db')
    × All (λ s. is_stale 2000000 s ≡ false) db'.sessions
reap_stale_sessions-cleans_example =
    reap_stale_sessions-cleans (at_time 2000000 "r") leased leased-WellFormed

-- four hours after the start, with a heartbeat a moment ago
abbrev beating : Session
beating = record held { last_heartbeat_at = 16000000 }

abbrev lapsed : Db
lapsed = record leased { sessions = beating ∷ [] }

lapsed-Entitled : Entitled 16000001 "u1" "a1" "d1" lapsed
unfolding find_where
lapsed-Entitled = record { user = refl; device = refl; account = refl }

acquire_lease-lapsed_example :
    acquire_lease (at_time 16000001 "s2") "u1" "a1" "d1" unsigned lapsed ≡ err constraint lapsed
unfolding find_where
acquire_lease-lapsed_example =
    acquire_lease-lapsed (at_time 16000001 "s2") "u1" "a1" "d1" unsigned beating lapsed (refl, tt)
      lapsed-Entitled refl refl

abbrev boss : ApiUser
boss = public_user admin_user

force_release_account-frees_example :
    (u : Unit {0}) × (db' : Db) × (force_release_account (at_time 1070000 "r") boss "a1" leased
      ≡ ok u db')
    × IsFree "a1" db'
force_release_account-frees_example =
    force_release_account-frees (at_time 1070000 "r") boss "a1" leased leased-WellFormed refl

-- the assignment of the sample runs out at 90000000, and its text a second later
heartbeat_lease-expired_example :
    (db' : Db) × (heartbeat_lease
        (at_time 90001000 "r")
        "u1"
        "s1"
        SessionRuntimeState.in_game
        leased
      ≡ err assignment_expired_error db')
    × (db'.sessions ≡ closed_rows 90001000 SessionStatus.ended ReleaseReason.error held.id leased)
unfolding find_where
heartbeat_lease-expired_example =
    heartbeat_lease-expired (at_time 90001000 "r") "u1" "s1" SessionRuntimeState.in_game held leased
      leased-WellFormed refl refl refl
