-- ===== src/Schema.antt =====
-- The tables of `schemaSql` in apps/api/src/db/database.ts and their constraints. Times are the
-- milliseconds of the ISO texts that the code stores; `toISOString` texts are ordered as their times.
use laap.Base.{ℕ, Bool, true, false, ◌&&◌, ◌||◌, String, Option, none, some, List, ◌==◌, all}
use laap.Base.Rows.{distinct_by}
use laap.Types.{
  SessionStatus, SessionRuntimeState, Platform, UserRole, UserStatus, AccountStatus,
  AssignmentStatus, DeviceStatus, ReleaseReason, is_live,
}

pub record User : Type 0 where
  pub id : String
  pub email : String
  pub password_hash : String
  pub display_name : String
  pub role : UserRole
  pub status : UserStatus
  pub created_at : ℕ
  pub updated_at : ℕ

pub record Account : Type 0 where
  pub id : String
  pub provider : String
  pub external_id : String
  pub display_name : String
  pub region : String
  pub status : AccountStatus
  pub session_blob : Option String
  pub metadata_json : String
  pub created_at : ℕ
  pub updated_at : ℕ

-- The ISO text of an expiry, which is stored as it was given: the time that `Date` reads in it, and the
-- first time whose ISO text, as `toISOString` writes it, does not sort before it. The two differ for a
-- text without milliseconds: '…00Z' sorts after '…00.999Z'.
pub record Expiry : Type 0 where
  pub time : ℕ
  pub passes : ℕ

pub record Assignment : Type 0 where
  pub id : String
  pub account_id : String
  pub user_id : String
  pub status : AssignmentStatus
  pub assigned_at : ℕ
  pub expires_at : Option Expiry
  pub created_at : ℕ

pub record Device : Type 0 where
  pub id : String
  pub user_id : String
  pub public_key : String
  pub platform : Platform
  pub device_name : String
  pub app_version : String
  pub status : DeviceStatus
  pub last_seen_at : ℕ
  pub created_at : ℕ

pub record Session : Type 0 where
  pub id : String
  pub account_id : String
  pub user_id : String
  pub device_id : String
  pub status : SessionStatus
  pub runtime_state : SessionRuntimeState
  pub started_at : ℕ
  pub last_heartbeat_at : ℕ
  pub ended_at : Option ℕ
  pub reconnect_grace_until : Option ℕ
  pub release_reason : Option ReleaseReason
  pub created_at : ℕ

-- the values of an audit payload
pub data Json : Type 0 where
  str : String → Json
  bool : Bool → Json
  strs : List String → Json

abbrev pub Payload : Type 0
Payload = List (String × Json)

pub record AuditLog : Type 0 where
  pub id : String
  pub actor_id : String
  pub action : String
  pub entity_type : String
  pub entity_id : String
  pub payload : Payload
  pub created_at : ℕ

-- The tables, and the connection's `foreign_keys` pragma.
pub record Db : Type 0 where
  pub users : List User
  pub accounts : List Account
  pub assignments : List Assignment
  pub devices : List Device
  pub sessions : List Session
  pub audit_logs : List AuditLog
  pub foreign_keys : Bool

-- id TEXT PRIMARY KEY, email UNIQUE
unfoldable pub users_ok : List User → Bool
users_ok = distinct_by (λ u v. u.id == v.id || u.email == v.email)

-- id TEXT PRIMARY KEY, external_id UNIQUE
unfoldable pub accounts_ok : List Account → Bool
accounts_ok = distinct_by (λ a b. a.id == b.id || a.external_id == b.external_id)

-- UNIQUE (account_id, user_id)
unfoldable pub assignments_ok : List Assignment → Bool
assignments_ok =
    distinct_by (λ a b. a.id == b.id || (a.account_id == b.account_id && a.user_id == b.user_id))

-- UNIQUE (user_id, public_key)
unfoldable pub devices_ok : List Device → Bool
devices_ok =
    distinct_by (λ a b. a.id == b.id || (a.user_id == b.user_id && a.public_key == b.public_key))

-- The CHECK on `release_reason` lists every reason but one.
abbrev pub reason_allowed : ReleaseReason → Bool
reason_allowed ReleaseReason.lease_timeout = false
reason_allowed ReleaseReason.manual = true
reason_allowed ReleaseReason.process_exit = true
reason_allowed ReleaseReason.logout = true
reason_allowed ReleaseReason.heartbeat_timeout = true
reason_allowed ReleaseReason.admin_force_release = true
reason_allowed ReleaseReason.error = true

abbrev pub reason_check : Option ReleaseReason → Bool
reason_check none = true
reason_check (some r) = reason_allowed r

-- a breach of the primary key, or of the unique index over live rows
abbrev pub sessions_clash : Session → Session → Bool
sessions_clash s t =
    s.id == t.id || (is_live s.status && (is_live t.status && s.account_id == t.account_id))

unfoldable pub sessions_ok : List Session → Bool
sessions_ok rows = distinct_by sessions_clash rows && all (λ s. reason_check s.release_reason) rows
