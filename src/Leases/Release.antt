-- ===== src/Leases/Release.antt =====
-- The ways a lease ends: `releaseLease`, `heartbeatLease`, `forceReleaseAccount`
-- (apps/api/src/services/sqlite/lease.service.ts).
pub mod Frame
pub mod Forced
pub mod Expired
pub mod Backed
pub mod Statements
use laap.Base.{
  Bool, Option, String, [], if◌then◌else◌, is_some, ltb, none, not, some, true, ℕ, ◌&&◌, ◌+◌, ◌==◌,
  ◌||◌, ◌∷◌,
}
use laap.Audit.{add_audit}
use laap.Base.Rows.{find_where}
use laap.Db.{Moment, update_sessions}
use laap.Db.Queries.{has_admin_role, live_session_of, session_by_id, user_by_id}
use laap.Exec.{M, ensure, gets, or_throw, pure, service_error, throw, transaction, ◌>>=◌, ◌>>◌}
use laap.Leases.{Expiry, active_assignment_of, close_session}
use laap.Schema.{Assignment, Db, Session, str}
use laap.Types.{
  ApiUser, ReleaseReason, SessionRuntimeState, SessionStatus, is_admin, is_exited, is_reconnecting,
  is_running, reason_text,
}
use laap.Validation.{release_lease_schema}

-- `actor.role === 'admin' && session.user_id !== actor.id ? 'admin_force_release' : reason`
abbrev pub effective_reason : ApiUser → Session → ReleaseReason → ReleaseReason
effective_reason actor s reason =
    if is_admin actor.role && not (s.user_id == actor.id)
    then ReleaseReason.admin_force_release
    else reason

pub end_lease : Moment → ApiUser → String → ReleaseReason → M (Unit {0})
end_lease m actor session_id reason = do
  found ← gets (session_by_id session_id)
  s ← or_throw found (service_error "SESSION_NOT_FOUND" 404)
  ensure (s.user_id == actor.id || is_admin actor.role) (service_error "FORBIDDEN" 403)
  close_session m.now SessionStatus.ended (effective_reason actor s reason) session_id
  add_audit m actor.id "SESSION_ENDED" "account_sessions" session_id (
      ("releaseReason", str (reason_text (effective_reason actor s reason)))
      ∷ ("accountId", str s.account_id)
      ∷ [])

pub release_lease : (String → Bool) → Moment → ApiUser → String → String → M (Unit {0})
release_lease is_uuid m actor session_id reason = do
  parsed ←
      or_throw (release_lease_schema is_uuid session_id reason)
        (service_error "INVALID_RELEASE_REASON" 400)
  transaction (end_lease m actor session_id parsed)

-- What the transaction of `heartbeatLease` returns.
pub data Beat : Type 0 where
  success assignment_expired : Beat

-- `expires_at IS NULL OR expires_at > ?`, a comparison of texts
abbrev pub in_force : ℕ → Option Expiry → Bool
in_force now none = true
in_force now (some e) = ltb now e.passes

-- … status = 'active' AND (expires_at IS NULL OR expires_at > ?)
abbrev pub assignment_in_force : ℕ → String → String → Db → Option Assignment
assignment_in_force now account_id user_id db =
    find_where (λ a. active_assignment_of account_id user_id a && in_force now a.expires_at)
      db.assignments

-- the new `reconnect_grace_until`
abbrev pub grace_until : ℕ → SessionRuntimeState → Option ℕ
grace_until now state = if is_reconnecting state then some (now + 300000) else none

abbrev pub beaten : ℕ → SessionRuntimeState → Session → Session
beaten now state s = record s {
  status = SessionStatus.active;
  runtime_state = state;
  last_heartbeat_at = now;
  reconnect_grace_until = grace_until now state;
}

pub expire_lease : Moment → String → Session → M Beat
expire_lease m user_id s = do
  close_session m.now SessionStatus.ended ReleaseReason.error s.id
  add_audit m user_id "SESSION_ENDED" "account_sessions" s.id
      (("accountId", str s.account_id) ∷ ("releaseReason", str "assignment_expired") ∷ [])
  pure Beat.assignment_expired

-- the client has exited
pub exit_lease : Moment → String → String → M Beat
exit_lease m user_id session_id = do
  close_session m.now SessionStatus.ended ReleaseReason.process_exit session_id
  add_audit m user_id "SESSION_ENDED" "account_sessions" session_id
      (("releaseReason", str "process_exit") ∷ [])
  pure Beat.success

pub refresh_lease : Moment → String → SessionRuntimeState → M Beat
refresh_lease m session_id state = do
  update_sessions (λ s. s.id == session_id) (beaten m.now state)
  pure Beat.success

pub record_beat : Moment → String → String → SessionRuntimeState → M Beat
record_beat m user_id session_id state =
    if is_exited state then exit_lease m user_id session_id else refresh_lease m session_id state

-- `!session || session.user_id !== userId || !['starting', 'active'].includes(session.status)`
abbrev pub held_by : String → Option Session → Option Session
held_by user_id none = none
held_by user_id (some s) = if s.user_id == user_id && is_running s.status then some s else none

pub beat : Moment → String → String → SessionRuntimeState → M Beat
beat m user_id session_id state = do
  found ← gets (session_by_id session_id)
  s ← or_throw (held_by user_id found) (service_error "SESSION_NOT_FOUND" 404)
  user ← gets (user_by_id user_id)
  assignment ← gets (assignment_in_force m.now s.account_id user_id)
  if has_admin_role user || is_some assignment
      then record_beat m user_id session_id state
      else expire_lease m user_id s

-- the `.then` behind the transaction: what it wrote is committed
pub beat_result : Beat → M (Unit {0})
beat_result Beat.success = pure tt
beat_result Beat.assignment_expired = throw (service_error "ASSIGNMENT_EXPIRED" 403)

pub heartbeat_lease : Moment → String → String → SessionRuntimeState → M (Unit {0})
heartbeat_lease m user_id session_id state = do
  result ← transaction (beat m user_id session_id state)
  beat_result result

end_live_session : Moment → String → String → Option Session → M (Unit {0})
end_live_session m actor_id account_id none = pure tt
end_live_session m actor_id account_id (some s) = do
  close_session m.now SessionStatus.ended ReleaseReason.admin_force_release s.id
  add_audit m actor_id "SESSION_ENDED" "account_sessions" s.id
      (("accountId", str account_id) ∷ ("releaseReason", str "admin_force_release") ∷ [])

pub force_release_account : Moment → ApiUser → String → M (Unit {0})
force_release_account m actor account_id = do
  ensure (is_admin actor.role) (service_error "FORBIDDEN" 403)
  transaction (do
    found ← gets (live_session_of account_id)
    end_live_session m actor.id account_id found
    add_audit m actor.id "SESSION_ENDED" "accounts" account_id
        (("releaseReason", str "admin_force_release") ∷ []))
