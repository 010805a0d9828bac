-- ===== src/Devices/Statements.antt =====
-- What an invariant of every statement gives for this service.
use laap.Base.{Option, String, none, some}
use laap.Db.{Moment}
use laap.Devices.{
  DeviceInput, approve_device, end_revoked, enroll_device, register_device, revoke_device,
  touch_device,
}
use laap.Exec.Keeps.{Keeps, keeps_rules}
use laap.Leases.Frame.{ended}
use laap.Schema.{Db, Device, Session}
use laap.Statements.{Statements, statements-Frame}

module _ {P : Db → Type 0} (st : Statements P) where
  enroll_device-Keeps :
      (m : Moment) (user_id : String) (input : DeviceInput) (existing : Option Device)
      → Keeps P (enroll_device m user_id input existing)
  unfolding enroll_device
  enroll_device-Keeps m user_id input none = search (keeps_rules, st.audit, st.device)
  enroll_device-Keeps m user_id input (some existing) = search (keeps_rules, st.devices)

  pub register_device-Keeps :
      (m : Moment) (user_id : String) (input : DeviceInput)
      → Keeps P (register_device m user_id input)
  unfolding register_device
  register_device-Keeps m user_id input = search (keeps_rules, enroll_device-Keeps)

  end_revoked-Keeps :
      (m : Moment) (actor_id : String) (s : Session) → Keeps P (end_revoked m actor_id s)
  unfolding end_revoked
  end_revoked-Keeps m actor_id s = search (keeps_rules, st.audit, ended (statements-Frame st))

  pub revoke_device-Keeps :
      (m : Moment) (actor_id device_id : String) → Keeps P (revoke_device m actor_id device_id)
  unfolding revoke_device
  revoke_device-Keeps m actor_id device_id =
      search (keeps_rules, st.audit, st.devices, end_revoked-Keeps) depth 12

  pub approve_device-Keeps :
      (m : Moment) (actor_id device_id : String) → Keeps P (approve_device m actor_id device_id)
  unfolding approve_device
  approve_device-Keeps m actor_id device_id = search (keeps_rules, st.audit, st.devices) depth 12

  pub touch_device-Keeps :
      (m : Moment) (user_id device_id : String) (app_version : Option String)
      → Keeps P (touch_device m user_id device_id app_version)
  unfolding touch_device
  touch_device-Keeps m user_id device_id app_version = search (keeps_rules, st.devices)
