-- ===== src/Devices.antt =====
-- SqliteDeviceService (apps/api/src/services/sqlite/device.service.ts): the devices of a user.
pub mod Backed
pub mod Challenge
pub mod Revoke
pub mod Statements
mod Tests
use laap.Base.{Bool, Option, String, [], get_or, is_some, none, some, ℕ, ◌&&◌, ◌==◌, ◌∷◌}
use laap.Audit.{add_audit}
use laap.Base.Rows.{find_where, select_where}
use laap.Db.{Moment, insert_device, update_devices}
use laap.Db.Queries.{active_device_of, authorized_device, device_by_id}
use laap.Exec.{M, ensure, for_each, gets, pure, service_error, transaction, ◌>>=◌, ◌>>◌}
use laap.Leases.{close_session}
use laap.Schema.{Db, Device, Session, str}
use laap.Types.{DeviceStatus, Platform, ReleaseReason, SessionStatus, is_active_device, is_live}

-- the fields of `deviceRegistrationSchema`
pub record DeviceInput : Type 0 where
  pub public_key : String
  pub platform : Platform
  pub device_name : String
  pub app_version : String

-- … WHERE user_id = ? AND public_key = ?
abbrev pub device_with_key : String → String → Db → Option Device
device_with_key user_id public_key db =
    find_where (λ d. d.user_id == user_id && d.public_key == public_key) db.devices

abbrev pub platform_text : Platform → String
platform_text Platform.windows = "windows"
platform_text Platform.macos = "macos"

abbrev pub refreshed : ℕ → DeviceInput → Device → Device
refreshed now input d = record d {
  device_name = input.device_name;
  app_version = input.app_version;
  status = DeviceStatus.active;
  last_seen_at = now;
}

abbrev pub new_device : Moment → String → DeviceInput → Device
new_device m user_id input = record {
  id = m.uuid;
  user_id = user_id;
  public_key = input.public_key;
  platform = input.platform;
  device_name = input.device_name;
  app_version = input.app_version;
  status = DeviceStatus.active;
  last_seen_at = m.now;
  created_at = m.now;
}

enroll_device : Moment → String → DeviceInput → Option Device → M String
enroll_device m user_id input none = do
  insert_device (new_device m user_id input)
  add_audit m user_id "DEVICE_REGISTERED" "user_devices" m.uuid
      (("platform", str (platform_text input.platform)) ∷ [])
  pure m.uuid
enroll_device m user_id input (some existing) = do
  ensure (is_active_device existing.status) (service_error "DEVICE_REVOKED" 403)
  update_devices (λ d. d.id == existing.id) (refreshed m.now input)
  pure existing.id

pub register_device : Moment → String → DeviceInput → M String
register_device m user_id input = transaction (do
  existing ← gets (device_with_key user_id input.public_key)
  enroll_device m user_id input existing)

-- … WHERE device_id = ? AND status IN ('starting', 'active', 'stopping')
abbrev pub live_on_device : String → Session → Bool
live_on_device device_id s = s.device_id == device_id && is_live s.status

end_revoked : Moment → String → Session → M (Unit {0})
end_revoked m actor_id s = do
  close_session m.now SessionStatus.ended ReleaseReason.error s.id
  add_audit m actor_id "SESSION_ENDED" "account_sessions" s.id
      (("releaseReason", str "device_revoked") ∷ [])

abbrev pub revoked_device : Device → Device
revoked_device d = record d { status = DeviceStatus.revoked }

pub revoke_device : Moment → String → String → M (Unit {0})
revoke_device m actor_id device_id = transaction (do
  found ← gets (device_by_id device_id)
  ensure (is_some found) (service_error "DEVICE_NOT_FOUND" 404)
  update_devices (λ d. d.id == device_id) revoked_device
  add_audit m actor_id "DEVICE_REVOKED" "user_devices" device_id []
  sessions ← gets (λ db. select_where (live_on_device device_id) db.sessions)
  for_each sessions (end_revoked m actor_id))

pub approve_device : Moment → String → String → M (Unit {0})
approve_device m actor_id device_id = transaction (do
  found ← gets (device_by_id device_id)
  ensure (is_some found) (service_error "DEVICE_NOT_FOUND" 404)
  update_devices (λ d. d.id == device_id)
      (λ d. record d { status = DeviceStatus.active; last_seen_at = m.now })
  add_audit m actor_id "DEVICE_APPROVED" "user_devices" device_id [])

-- Two statements with no transaction around them; the second one alone writes.
pub touch_device : Moment → String → String → Option String → M (Unit {0})
touch_device m user_id device_id app_version = do
  found ← gets (authorized_device device_id user_id)
  ensure (is_some found) (service_error "DEVICE_NOT_AUTHORIZED" 403)
  update_devices (active_device_of device_id user_id)
      (λ d. record d { last_seen_at = m.now; app_version = get_or app_version d.app_version })
