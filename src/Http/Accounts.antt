-- ===== src/Http/Accounts.antt =====
-- apps/api/src/routes/accounts.routes.ts
pub mod Keeps
pub mod Operators
pub mod Confined
pub mod Reopened
use laap.Base.{String, if◌then◌else◌, ◌&&◌, ◌||◌}
use laap.Accounts.{create_account, delete_account, update_account}
use laap.Accounts.Blobs.{delete_account_session_blob, save_account_session_blob}
use laap.Db.{Moment}
use laap.Exec.{Failure, M, http_error, throw, ◌>>=◌, ◌>>◌}
use laap.Http.Context.{
  Reply, Request, Runtime, created, current_user, done, is_part, is_route, list_accounts, not_found,
  part, read_input, require_current_admin, route_uuid, send, shown,
}
use laap.Http.Devices.{scope_of}
use laap.Leases.Release.{force_release_account}
use laap.Types.{ApiUser}
use laap.Validation.Requests.{account_create_schema, account_update_schema, session_blob_schema}

abbrev credentials_disabled : String → Failure
credentials_disabled message = http_error 410 "RIOT_CREDENTIALS_DISABLED" message

create_route : Runtime → Moment → Request → ApiUser → M Reply
create_route rt m r user = do
  require_current_admin user
  input ←
      read_input (account_create_schema rt.zod)
        (http_error 400 "INVALID_ACCOUNT" "Account fields are invalid") r
  account_id ← create_account m user.id input
  send 201 (created account_id)

unfoldable pub update_route : Runtime → Moment → Request → ApiUser → M Reply
update_route rt m r user = do
  require_current_admin user
  input ←
      read_input (account_update_schema rt.zod)
        (http_error 400 "INVALID_ACCOUNT" "Account fields are invalid") r
  account_id ← route_uuid rt (part 2 r.parts) "INVALID_ACCOUNT_ID"
  update_account m user.id account_id input
  done

delete_route : Runtime → Moment → Request → ApiUser → M Reply
delete_route rt m r user = do
  require_current_admin user
  account_id ← route_uuid rt (part 2 r.parts) "INVALID_ACCOUNT_ID"
  delete_account m user.id account_id
  done

save_blob_route : Runtime → Moment → Request → ApiUser → M Reply
save_blob_route rt m r user = do
  require_current_admin user
  blob ←
      read_input session_blob_schema
        (http_error 400 "INVALID_SESSION_BLOB" "Session blob is invalid") r
  account_id ← route_uuid rt (part 2 r.parts) "INVALID_ACCOUNT_ID"
  save_account_session_blob rt.cipher rt.vault_key m user.id account_id blob
  done

delete_blob_route : Runtime → Moment → Request → ApiUser → M Reply
delete_blob_route rt m r user = do
  require_current_admin user
  account_id ← route_uuid rt (part 2 r.parts) "INVALID_ACCOUNT_ID"
  delete_account_session_blob m user.id account_id
  done

force_release_route : Runtime → Moment → Request → ApiUser → M Reply
force_release_route rt m r user = do
  require_current_admin user
  account_id ← route_uuid rt (part 2 r.parts) "INVALID_ACCOUNT_ID"
  force_release_account m user account_id
  done

-- the routes of a signed-in user
account_routes : Runtime → Moment → Request → ApiUser → M Reply
account_routes rt m r user =
    if is_route 2 "GET" r
    then send 200 (shown (list_accounts (scope_of user)))
    else if is_route 2 "POST" r
    then create_route rt m r user
    else if is_route 3 "PATCH" r
    then update_route rt m r user
    else if is_route 3 "DELETE" r
    then delete_route rt m r user
    else if (is_route 4 "PUT" r || is_route 4 "POST" r) && is_part 3 "session-blob" r
    then save_blob_route rt m r user
    else if is_route 4 "DELETE" r && is_part 3 "session-blob" r
    then delete_blob_route rt m r user
    else if is_route 4 "POST" r && is_part 3 "release" r
    then force_release_route rt m r user
    else throw not_found

signed_in_routes : Runtime → Moment → Request → M Reply
signed_in_routes rt m r = do user ← current_user rt r; account_routes rt m r user

pub handle_account_routes : Runtime → Moment → Request → M Reply
handle_account_routes rt m r =
    if is_route 4 "GET" r && is_part 3 "credential-status" r
    then throw (
        credentials_disabled
          "LAAP does not manage Riot credentials. Sign in through the official Riot Client.")
    else if is_route 4 "POST" r && is_part 3 "credentials" r
    then throw (
        credentials_disabled
          "LAAP does not accept Riot credentials. Sign in through the official Riot Client.")
    else signed_in_routes rt m r
