-- ===== src/Devices/Backed.antt =====
-- The device service leaves no lease on a device that it has revoked.
use laap.Base.{
  Bool, Option, String, [], arith, get_or, none, refl, some, true, ◌++◌, ◌==◌, ◌∷◌, ◌≡◌,
}
use laap.Base.Keys.{is_some-append, is_some-update}
use laap.Base.Rows.{update_where}
use laap.Db.{Moment, insert_device, update_devices}
use laap.Db.Queries.{active_device_of}
use laap.Db.Writes.{write_devices_after}
use laap.Devices.{
  DeviceInput, approve_device, enroll_device, refreshed, register_device, touch_device,
}
use laap.Exec.Keeps.{Keeps, keeps_rules}
use laap.Leases.Backed.{AllBacked, add_audit-AllBacked, devices-AllBacked}
use laap.Schema.{Device}
use laap.Types.{DeviceStatus, is_active_device}

insert_device-AllBacked : (row : Device) → Keeps AllBacked (insert_device row)
unfolding insert_device
insert_device-AllBacked row = record {
  at = λ db h. write_devices_after AllBacked db h _ (
      devices-AllBacked db (db.devices ++ row ∷ [])
        (λ id user_id found. is_some-append (active_device_of id user_id) db.devices row found) h);
}

-- A write that revokes no device and moves none to another user.
update_devices-AllBacked :
    (p : Device → Bool) (f : Device → Device)
    → ((d : Device) → (f d).id ≡ d.id)
    → ((d : Device) → (f d).user_id ≡ d.user_id)
    → ((d : Device) → is_active_device d.status ≡ true → is_active_device (f d).status ≡ true)
    → Keeps AllBacked (update_devices p f)
unfolding update_devices
update_devices-AllBacked p f same_id same_user active = record {
  at = λ db h. write_devices_after AllBacked db h _ (
      devices-AllBacked db (update_where p f db.devices)
        (λ id user_id found.
          is_some-update (active_device_of id user_id) p f
            (λ d _ k. ground (arith, same_id d, same_user d, active d)) db.devices found)
        h);
}

enroll_device-AllBacked :
    (m : Moment) (user_id : String) (input : DeviceInput) (existing : Option Device)
    → Keeps AllBacked (enroll_device m user_id input existing)
unfolding enroll_device
enroll_device-AllBacked m user_id input none =
    search (keeps_rules, add_audit-AllBacked, insert_device-AllBacked)
enroll_device-AllBacked m user_id input (some existing) =
    let write =
      update_devices-AllBacked (λ d. d.id == existing.id) (refreshed m.now input) (λ d. refl)
        (λ d. refl) (λ d k. refl) in
    search keeps_rules

pub register_device-AllBacked :
    (m : Moment) (user_id : String) (input : DeviceInput)
    → Keeps AllBacked (register_device m user_id input)
unfolding register_device
register_device-AllBacked m user_id input = search (keeps_rules, enroll_device-AllBacked)

pub approve_device-AllBacked :
    (m : Moment) (actor_id device_id : String)
    → Keeps AllBacked (approve_device m actor_id device_id)
unfolding approve_device
approve_device-AllBacked m actor_id device_id =
    let write =
      update_devices-AllBacked (λ d. d.id == device_id)
        (λ d. record d { status = DeviceStatus.active; last_seen_at = m.now }) (λ d. refl)
        (λ d. refl) (λ d k. refl) in
    search (keeps_rules, add_audit-AllBacked) depth 12

pub touch_device-AllBacked :
    (m : Moment) (user_id device_id : String) (app_version : Option String)
    → Keeps AllBacked (touch_device m user_id device_id app_version)
unfolding touch_device
touch_device-AllBacked m user_id device_id app_version =
    let write =
      update_devices-AllBacked (active_device_of device_id user_id)
        (λ d. record d { last_seen_at = m.now; app_version = get_or app_version d.app_version })
        (λ d. refl) (λ d. refl) (λ d k. k) in
    search keeps_rules
