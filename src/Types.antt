-- ===== src/Types.antt =====
-- packages/types/src/index.ts and the CHECK lists of apps/api/src/db/database.ts: the closed sets of
-- words that columns and requests hold, with the tests that the code makes on them.
use laap.Base.{Bool, true, false, String}

-- a row's lease state; the first three are the live ones
pub data SessionStatus : Type 0 where
  starting active stopping ended stale error : SessionStatus

pub data SessionRuntimeState : Type 0 where
  launching in_client in_game reconnecting exited : SessionRuntimeState

pub data Platform : Type 0 where
  windows macos : Platform

pub data UserRole : Type 0 where
  admin operator : UserRole

pub data UserStatus : Type 0 where
  active suspended disabled : UserStatus

pub data AccountStatus : Type 0 where
  available maintenance disabled : AccountStatus

pub data AssignmentStatus : Type 0 where
  active revoked expired : AssignmentStatus

pub data DeviceStatus : Type 0 where
  active revoked : DeviceStatus

-- every word that the code writes to `release_reason`
pub data ReleaseReason : Type 0 where
  manual process_exit logout heartbeat_timeout admin_force_release lease_timeout error :
      ReleaseReason

-- `status IN ('starting', 'active', 'stopping')`
abbrev pub is_live : SessionStatus → Bool
is_live SessionStatus.starting = true
is_live SessionStatus.active = true
is_live SessionStatus.stopping = true
is_live SessionStatus.ended = false
is_live SessionStatus.stale = false
is_live SessionStatus.error = false

-- `['starting', 'active'].includes(status)`
abbrev pub is_running : SessionStatus → Bool
is_running SessionStatus.starting = true
is_running SessionStatus.active = true
is_running SessionStatus.stopping = false
is_running SessionStatus.ended = false
is_running SessionStatus.stale = false
is_running SessionStatus.error = false

abbrev pub is_exited : SessionRuntimeState → Bool
is_exited SessionRuntimeState.exited = true
is_exited _ = false

abbrev pub is_reconnecting : SessionRuntimeState → Bool
is_reconnecting SessionRuntimeState.reconnecting = true
is_reconnecting _ = false

abbrev pub is_admin : UserRole → Bool
is_admin UserRole.admin = true
is_admin UserRole.operator = false

abbrev pub is_active_user : UserStatus → Bool
is_active_user UserStatus.active = true
is_active_user UserStatus.suspended = false
is_active_user UserStatus.disabled = false

abbrev pub is_available : AccountStatus → Bool
is_available AccountStatus.available = true
is_available AccountStatus.maintenance = false
is_available AccountStatus.disabled = false

abbrev pub account_status_eq : AccountStatus → AccountStatus → Bool
account_status_eq AccountStatus.available b = is_available b
account_status_eq AccountStatus.maintenance AccountStatus.maintenance = true
account_status_eq AccountStatus.maintenance _ = false
account_status_eq AccountStatus.disabled AccountStatus.disabled = true
account_status_eq AccountStatus.disabled _ = false

abbrev pub is_active_assignment : AssignmentStatus → Bool
is_active_assignment AssignmentStatus.active = true
is_active_assignment AssignmentStatus.revoked = false
is_active_assignment AssignmentStatus.expired = false

abbrev pub is_active_device : DeviceStatus → Bool
is_active_device DeviceStatus.active = true
is_active_device DeviceStatus.revoked = false

-- the word that stands in the database and in requests
abbrev pub reason_text : ReleaseReason → String
reason_text ReleaseReason.manual = "manual"
reason_text ReleaseReason.process_exit = "process_exit"
reason_text ReleaseReason.logout = "logout"
reason_text ReleaseReason.heartbeat_timeout = "heartbeat_timeout"
reason_text ReleaseReason.admin_force_release = "admin_force_release"
reason_text ReleaseReason.lease_timeout = "lease_timeout"
reason_text ReleaseReason.error = "error"

-- what a caller learns of a user
pub record ApiUser : Type 0 where
  pub id : String
  pub email : String
  pub display_name : String
  pub role : UserRole
  pub status : UserStatus
