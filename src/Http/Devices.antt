-- ===== src/Http/Devices.antt =====
-- apps/api/src/routes/devices.routes.ts
pub mod Keeps
pub mod Confined
use laap.Base.{Option, String, if◌then◌else◌, none, some, ◌&&◌}
use laap.Db.{Moment}
use laap.Devices.{approve_device, register_device, revoke_device, touch_device}
use laap.Exec.{M, http_error, throw, ◌>>=◌, ◌>>◌}
use laap.Http.Context.{
  Reply, Request, Runtime, created, current_user, done, is_part, is_route, list_devices, not_found,
  part, read_input, require_current_admin, route_uuid, send, shown,
}
use laap.Types.{ApiUser, is_admin}
use laap.Validation.Requests.{device_heartbeat_schema, device_registration_schema}

-- `user.role === 'admin' ? undefined : user.id`
abbrev pub scope_of : ApiUser → Option String
scope_of user = if is_admin user.role then none else some user.id

register_route : Runtime → Moment → Request → ApiUser → M Reply
register_route rt m r user = do
  input ←
      read_input (device_registration_schema rt.zod)
        (http_error 400 "INVALID_DEVICE" "Device fields are invalid") r
  device_id ← register_device m user.id input
  send 201 (created device_id)

touch_route : Runtime → Moment → Request → ApiUser → M Reply
touch_route rt m r user = do
  app_version ←
      read_input (device_heartbeat_schema rt.zod)
        (http_error 400 "INVALID_DEVICE_HEARTBEAT" "Device heartbeat is invalid") r
  device_id ← route_uuid rt (part 2 r.parts) "INVALID_DEVICE_ID"
  touch_device m user.id device_id app_version
  done

approve_route : Runtime → Moment → Request → ApiUser → M Reply
approve_route rt m r user = do
  require_current_admin user
  device_id ← route_uuid rt (part 2 r.parts) "INVALID_DEVICE_ID"
  approve_device m user.id device_id
  done

revoke_route : Runtime → Moment → Request → ApiUser → M Reply
revoke_route rt m r user = do
  require_current_admin user
  device_id ← route_uuid rt (part 2 r.parts) "INVALID_DEVICE_ID"
  revoke_device m user.id device_id
  done

pub handle_device_routes : Runtime → Moment → Request → M Reply
handle_device_routes rt m r = do
  user ← current_user rt r
  if is_route 2 "GET" r
      then send 200 (shown (list_devices (scope_of user)))
      else if is_route 2 "POST" r
      then register_route rt m r user
      else if is_route 4 "POST" r && is_part 3 "heartbeat" r
      then touch_route rt m r user
      else if is_route 4 "POST" r && is_part 3 "approve" r
      then approve_route rt m r user
      else if is_route 3 "DELETE" r
      then revoke_route rt m r user
      else throw not_found
