-- ===== src/Leases.antt =====
-- SqliteLeaseService (apps/api/src/services/sqlite/lease.service.ts): who holds an account.
pub mod Release
pub mod Frame
pub mod Reaper
pub mod Timeout
pub mod Grant
pub mod Closing
pub mod Closed
pub mod Acquire
pub mod Backed
pub mod Statements
mod Tests
mod Examples
use laap.Base.{
  ℕ, ◌-◌, Bool, true, false, not, ◌&&◌, ◌||◌, String, Option, none, some, [], ◌∷◌, ◌==◌, ltb, leb,
  if◌then◌else◌, is_some, length,
}
use laap.Base.Rows.{find_where, select_where}
use laap.Types.{
  SessionStatus, SessionRuntimeState, ReleaseReason, is_live, is_available, is_active_assignment,
}
use laap.Schema.{Expiry, Account, Assignment, Session, str, bool, Db}
use laap.Exec.{M, service_error, pure, throw, gets, ensure, ◌>>=◌, ◌>>◌, transaction, for_each}
use laap.Db.{Moment, update_sessions, insert_session}
use laap.Db.Queries.{user_by_id, account_by_id, live_session_of, authorized_device, has_admin_role}
use laap.Audit.{add_audit}

-- SET status = …, runtime_state = 'EXITED', ended_at = ?, release_reason = …
abbrev pub closed : ℕ → SessionStatus → ReleaseReason → Session → Session
closed now status reason s = record s {
  status = status;
  runtime_state = SessionRuntimeState.exited;
  ended_at = some now;
  release_reason = some reason;
}

-- … WHERE id = ?
unfoldable pub close_session : ℕ → SessionStatus → ReleaseReason → String → M (Unit {0})
close_session now status reason id = update_sessions (λ s. s.id == id) (closed now status reason)

-- `reconnect_grace_until IS NULL OR reconnect_grace_until <= ?`
abbrev pub grace_over : ℕ → Option ℕ → Bool
grace_over now none = true
grace_over now (some until) = leb until now

-- a live session whose last heartbeat is over two minutes old
abbrev pub is_stale : ℕ → Session → Bool
is_stale now s =
    is_live s.status
    && (ltb s.last_heartbeat_at (now - 120000) && grace_over now s.reconnect_grace_until)

reap_session : Moment → Session → M (Unit {0})
reap_session m s = do
  close_session m.now SessionStatus.stale ReleaseReason.heartbeat_timeout s.id
  add_audit m s.user_id "SESSION_LAZILY_REAPED" "account_sessions" s.id
      (("accountId", str s.account_id) ∷ [])

pub reap_stale_sessions : Moment → M ℕ
reap_stale_sessions m = do
  stale ← gets (λ db. select_where (is_stale m.now) db.sessions)
  for_each stale (reap_session m)
  pure (length stale)

-- `expires_at && new Date(expires_at).getTime() <= Date.now()`
abbrev pub is_expired : ℕ → Option Expiry → Bool
is_expired now none = false
is_expired now (some e) = leb e.time now

abbrev pub active_assignment_of : String → String → Assignment → Bool
active_assignment_of account_id user_id a =
    a.account_id == account_id && (a.user_id == user_id && is_active_assignment a.status)

abbrev pub active_assignment : String → String → Db → Option Assignment
active_assignment account_id user_id db =
    find_where (active_assignment_of account_id user_id) db.assignments

abbrev pub is_granted : ℕ → Option Assignment → Bool
is_granted now none = false
is_granted now (some a) = not (is_expired now a.expires_at)

abbrev pub is_open : Option Account → Bool
is_open none = false
is_open (some a) = is_available a.status

-- `nonce`, `signature` of the request
pub record Challenge : Type 0 where
  pub nonce : Option String
  pub signature : Option String

abbrev pub is_text : Option String → Bool
is_text none = false
is_text (some t) = not (t == "")

pub record Lease : Type 0 where
  pub session_id : String
  pub is_reconnect : Bool

-- the row of a new lease
abbrev pub new_session : Moment → String → String → String → Session
new_session m user_id account_id device_id = record {
  id = m.uuid;
  account_id = account_id;
  user_id = user_id;
  device_id = device_id;
  status = SessionStatus.active;
  runtime_state = SessionRuntimeState.launching;
  started_at = m.now;
  last_heartbeat_at = m.now;
  ended_at = none;
  reconnect_grace_until = none;
  release_reason = none;
  created_at = m.now;
}

pub start_session : Moment → String → String → String → Challenge → M Lease
start_session m user_id account_id device_id options = do
  insert_session (new_session m user_id account_id device_id)
  add_audit m user_id "SESSION_STARTED" "account_sessions" m.uuid (
      ("accountId", str account_id)
      ∷ ("deviceId", str device_id)
      ∷ ("signed", bool (is_text options.nonce && is_text options.signature))
      ∷ [])
  pure (record { session_id = m.uuid; is_reconnect = false })

-- what is done about the session that holds the account
pub claim_account : Moment → String → String → String → Challenge → Option Session → M Lease
claim_account m user_id account_id device_id options none =
    start_session m user_id account_id device_id options
claim_account m user_id account_id device_id options (some active) =
    if ltb active.started_at (m.now - 14400000)
    then (do
      close_session m.now SessionStatus.stale ReleaseReason.lease_timeout active.id
      add_audit m user_id "SESSION_LAZILY_REAPED" "account_sessions" active.id
          (("accountId", str account_id) ∷ [])
      start_session m user_id account_id device_id options)
    else if active.user_id == user_id && active.device_id == device_id
    then pure (record { session_id = active.id; is_reconnect = true })
    else throw (service_error "ACCOUNT_BUSY" 409)

-- the part of `acquireLease` after the reaper
pub request_lease : Moment → String → String → String → Challenge → M Lease
request_lease m user_id account_id device_id options = do
  user ← gets (user_by_id user_id)
  assignment ← gets (active_assignment account_id user_id)
  ensure (has_admin_role user || is_granted m.now assignment)
      (service_error "NO_ACTIVE_ASSIGNMENT" 403)
  device ← gets (authorized_device device_id user_id)
  ensure (is_some device) (service_error "DEVICE_NOT_AUTHORIZED" 403)
  account ← gets (account_by_id account_id)
  ensure (is_open account) (service_error "ACCOUNT_UNAVAILABLE" 409)
  active ← gets (live_session_of account_id)
  claim_account m user_id account_id device_id options active

pub acquire_lease : Moment → String → String → String → Challenge → M Lease
acquire_lease m user_id account_id device_id options =
    transaction (do reap_stale_sessions m; request_lease m user_id account_id device_id options)
