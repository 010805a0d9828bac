-- ===== src/Leases/Tests.antt =====
-- Runs of the lease service on the sample database.
use laap.Base.{[], false, inl, inr, refl, ◌∷◌, ◌≡◌}
use laap.Audit.{add_audit}
use laap.Base.Rows.{distinct_by, exists_where, find_where, select_where, update_where}
use laap.Db.{insert_session, update_sessions, write_sessions}
use laap.Exec.{constraint, for_each, transaction, ◌>>=◌}
use laap.Leases.{
  acquire_lease, claim_account, close_session, reap_session, reap_stale_sessions, request_lease,
  start_session,
}
use laap.Samples.{at_time, held, result, start, unsigned}
use laap.Schema.{sessions_ok}

runs_lease :
    result (acquire_lease (at_time 1000000 "s1") "u1" "a1" "d1" unsigned start)
    ≡ inl (record { session_id = "s1"; is_reconnect = false })
unfolding acquire_lease request_lease claim_account start_session reap_stale_sessions reap_session
    ◌>>=◌ transaction for_each insert_session write_sessions close_session update_sessions add_audit
    find_where select_where update_where distinct_by exists_where sessions_ok
runs_lease = refl

-- a holder who has beaten for more than four hours is refused, by the CHECK on `lease_timeout`
runs_timeout :
    result (
      acquire_lease
        (at_time 16000001 "s2")
        "u1"
        "a1"
        "d1"
        unsigned
        (record start { sessions = record held { last_heartbeat_at = 16000000 } ∷ [] }))
    ≡ inr constraint
unfolding acquire_lease request_lease claim_account start_session reap_stale_sessions reap_session
    ◌>>=◌ transaction for_each insert_session write_sessions close_session update_sessions add_audit
    find_where select_where update_where distinct_by exists_where sessions_ok
runs_timeout = refl
