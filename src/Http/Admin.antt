-- ===== src/Http/Admin.antt =====
-- apps/api/src/routes/admin.routes.ts, and `getDashboard` of
-- apps/api/src/services/sqlite/admin.service.ts as far as it writes.
pub mod Keeps
pub mod Confined
mod Dashboard
pub mod Operators
use laap.Schema.{Expiry}
use laap.Base.{Bool, Option, String, false, if◌then◌else◌, leb, none, not, some, ℕ, ◌&&◌, ◌+◌, ◌||◌}
use laap.Assignments.{add_assignment, revoke_assignment}
use laap.Db.{Moment}
use laap.Exec.{M, ensure, gets, http_error, or_throw, service_error, throw, ◌>>=◌, ◌>>◌}
use laap.Http.Context.{
  Reply, Request, Runtime, View, created, current_user, done, get_metrics, is_part, is_route,
  list_activity, list_assignments, audit_page, list_sessions, list_users, not_found, part, profile,
  query_integer, read_input, require_current_admin, route_uuid, send, shown, with_http_errors,
}
use laap.Http.Devices.{scope_of}
use laap.Leases.{reap_stale_sessions}
use laap.Types.{expired, ApiUser, is_admin}
use laap.Users.{create_user, find_user_by_id, reset_user_password, update_user}
use laap.Validation.Requests.{
  assignment_schema, user_create_schema, user_password_reset_schema, user_update_schema,
}

-- `getDashboard`: the reaper runs first, and what it wrote stays when the user is not found
pub get_dashboard : Moment → String → M ApiUser
get_dashboard m user_id = do
  reap_stale_sessions m
  found ← gets (find_user_by_id user_id)
  or_throw found (service_error "USER_NOT_FOUND" 404)

pub dashboard_route : Moment → ApiUser → M Reply
dashboard_route m user = do found ← get_dashboard m user.id; send 200 (shown (View.snapshot found))

admin_view : ApiUser → View → M Reply
admin_view user view = do require_current_admin user; send 200 (shown view)

create_user_route : Runtime → Moment → Request → ApiUser → M Reply
create_user_route rt m r user = do
  require_current_admin user
  input ←
      read_input (user_create_schema rt.zod)
        (http_error 400 "INVALID_USER" "User fields are invalid") r
  ensure (not (is_admin input.role) || is_admin user.role)
      (http_error 403 "ADMIN_REQUIRED" "Only an administrator can create administrators")
  fresh ← with_http_errors (create_user rt.texts m user.id input)
  send 201 (profile (some fresh))

update_user_route : Runtime → Moment → Request → ApiUser → M Reply
update_user_route rt m r user = do
  require_current_admin user
  input ←
      read_input (user_update_schema rt.zod)
        (http_error 400 "INVALID_USER" "User fields are invalid") r
  user_id ← route_uuid rt (part 2 r.parts) "INVALID_USER_ID"
  changed ← with_http_errors (update_user m user.id user_id input)
  send 200 (profile changed)

reset_password_route : Runtime → Moment → Request → ApiUser → M Reply
reset_password_route rt m r user = do
  require_current_admin user
  password ←
      read_input user_password_reset_schema
        (http_error 400 "INVALID_PASSWORD" "Password must be at least 12 characters") r
  user_id ← route_uuid rt (part 2 r.parts) "INVALID_USER_ID"
  with_http_errors (reset_user_password rt.texts m user.id user_id password)
  done

-- `expiresAt && new Date(expiresAt).getTime() <= Date.now()`
abbrev pub is_past : ℕ → Option Expiry → Bool
is_past now none = false
is_past now (some e) = leb e.time now

assign_route : Runtime → Moment → Request → ApiUser → M Reply
assign_route rt m r user = do
  require_current_admin user
  input ←
      read_input (assignment_schema rt.zod)
        (http_error 400 "INVALID_ASSIGNMENT" "Assignment fields are invalid") r
  ensure (not (is_past m.now input.expires_at))
      (http_error 400 "INVALID_ASSIGNMENT" "Assignment expiry must be in the future")
  assignment_id ← add_assignment m user.id input.account_id input.user_id input.expires_at
  send 201 (created assignment_id)

revoke_assignment_route : Runtime → Moment → Request → ApiUser → M Reply
revoke_assignment_route rt m r user = do
  require_current_admin user
  account_id ← route_uuid rt (part 2 r.parts) "INVALID_ACCOUNT_ID"
  user_id ← route_uuid rt (part 3 r.parts) "INVALID_USER_ID"
  revoke_assignment m user.id account_id user_id
  done

-- `queryInteger` for the page of the audit log
pub audit_limit : Runtime → Request → ℕ
audit_limit rt r = query_integer rt r.limit 100 1 100

pub audit_offset : Runtime → Request → ℕ
audit_offset rt r = query_integer rt r.offset 0 0 1000000

-- the page with one row more read, to see whether there are more
audit_route : Runtime → Request → ApiUser → M Reply
audit_route rt r user = admin_view user (audit_page (audit_limit rt r) (audit_offset rt r))

user_routes : Runtime → Moment → Request → ApiUser → M Reply
user_routes rt m r user =
    if is_route 2 "GET" r
    then admin_view user list_users
    else if is_route 2 "POST" r
    then create_user_route rt m r user
    else if is_route 3 "PATCH" r
    then update_user_route rt m r user
    else if is_route 4 "POST" r && is_part 3 "reset-password" r
    then reset_password_route rt m r user
    else throw not_found

assignment_routes : Runtime → Moment → Request → ApiUser → M Reply
assignment_routes rt m r user =
    if is_route 2 "GET" r
    then admin_view user list_assignments
    else if is_route 2 "POST" r
    then assign_route rt m r user
    else if is_route 4 "DELETE" r
    then revoke_assignment_route rt m r user
    else throw not_found

-- the routes after that of the dashboard
other_routes : Runtime → Moment → Request → ApiUser → M Reply
other_routes rt m r user =
    if is_part 1 "metrics" r && is_route 2 "GET" r
    then send 200 (shown (get_metrics (scope_of user)))
    else if is_part 1 "sessions" r && is_route 2 "GET" r
    then send 200 (shown (list_sessions (scope_of user)))
    else if is_part 1 "activity" r && is_route 2 "GET" r
    then send 200 (shown (list_activity (scope_of user)))
    else if is_part 1 "users" r
    then user_routes rt m r user
    else if is_part 1 "assignments" r
    then assignment_routes rt m r user
    else if is_part 1 "audit" r && is_route 2 "GET" r
    then audit_route rt r user
    else throw not_found

pub handle_admin_and_dashboard_routes : Runtime → Moment → Request → M Reply
handle_admin_and_dashboard_routes rt m r = do
  user ← current_user rt r
  if is_part 1 "dashboard" r && is_route 2 "GET" r
      then dashboard_route m user
      else other_routes rt m r user
