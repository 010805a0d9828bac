-- ===== src/Leases/Frame.antt =====
-- What an entry in the audit log and the end of a session keep, the reaper keeps.
use laap.Base.{List, Option, String, false, none, refl, some, ℕ, ◌≡◌}
use laap.Audit.{add_audit, add_audit-Keeps}
use laap.Db.{Moment, insert_session, update_sessions}
use laap.Db.Writes.{write_sessions_after}
use laap.Exec.Keeps.{Keeps, keeps_rules}
use laap.Leases.{
  Challenge, claim_account, close_session, new_session, reap_session, reap_stale_sessions,
  start_session,
}
use laap.Schema.{AuditLog, Db, Payload, Session}
use laap.Types.{ReleaseReason, SessionStatus, is_live}

-- The two writes by which a service ends a lease.
pub record Frame (P : Db → Type 0) : Type 0 where
  pub audit :
      (m : Moment) (actor_id action entity_type entity_id : String) (payload : Payload)
      → Keeps P (add_audit m actor_id action entity_type entity_id payload)
  pub close :
      (now : ℕ) (status : SessionStatus) (reason : ReleaseReason) (id : String)
      → is_live status ≡ false
      → Keeps P (close_session now status reason id)

-- What reads neither the sessions nor the log.
pub frame_of :
    (P : Db → Type 0)
    → ((db : Db) (rows : List Session) (logs : List AuditLog)
        → P db
        → P (record db { sessions = rows; audit_logs = logs }))
    → Frame P
unfolding close_session update_sessions
frame_of P stable = record {
  audit = add_audit-Keeps P (λ db rows h. stable db db.sessions rows h);
  close = λ now status reason id over. record {
    at = λ db h. write_sessions_after P db h _ (stable db _ db.audit_logs h);
  };
}

module _ {P : Db → Type 0} (frame : Frame P) where
  pub ended :
      (now : ℕ) (reason : ReleaseReason) (id : String)
      → Keeps P (close_session now SessionStatus.ended reason id)
  ended now reason id = frame.close now SessionStatus.ended reason id refl

  pub staled :
      (now : ℕ) (reason : ReleaseReason) (id : String)
      → Keeps P (close_session now SessionStatus.stale reason id)
  staled now reason id = frame.close now SessionStatus.stale reason id refl

  reap_session-Keeps : (m : Moment) (s : Session) → Keeps P (reap_session m s)
  unfolding reap_session
  reap_session-Keeps m s = search (keeps_rules, frame.audit, staled)

  pub reap_stale_sessions-Keeps : (m : Moment) → Keeps P (reap_stale_sessions m)
  unfolding reap_stale_sessions
  reap_stale_sessions-Keeps m = search (keeps_rules, reap_session-Keeps)

  -- The audit entries and the stale session that a claim ends; the new row is left to the caller.
  pub claim_account-Keeps :
      (m : Moment) (user_id account_id device_id : String) (options : Challenge)
      (active : Option Session)
      → Keeps P (insert_session (new_session m user_id account_id device_id))
      → Keeps P (claim_account m user_id account_id device_id options active)
  unfolding claim_account start_session
  claim_account-Keeps m user_id account_id device_id options none insert =
      search (keeps_rules, frame.audit)
  claim_account-Keeps m user_id account_id device_id options (some active) insert =
      search (keeps_rules, frame.audit, staled) depth 8
