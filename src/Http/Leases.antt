-- ===== src/Http/Leases.antt =====
-- apps/api/src/routes/leases.routes.ts
pub mod Keeps
pub mod Confined
use laap.Base.{Bool, Option, String, get_or, if◌then◌else◌, none, some, ◌&&◌, ◌==◌}
use laap.Accounts.Blobs.{get_account_session_blob}
use laap.Db.{Moment}
use laap.Devices.Challenge.{verify_device_challenge}
use laap.Exec.{Failure, M, ensure, gets, http_error, plain, pure, throw, when, ◌>>=◌, ◌>>◌}
use laap.Http.Context.{
  Document, Reply, Request, Runtime, current_user, done, granted, is_part, is_route, not_found,
  not_object, null_document, object, part, read_input, read_json, route_uuid, secret, send,
  with_http_errors,
}
use laap.Leases.{Challenge, acquire_lease, is_text}
use laap.Leases.Release.{heartbeat_lease, release_lease}
use laap.Types.{ApiUser}
use laap.Validation.{Value, missing, null, text}
use laap.Validation.Requests.{AcquireInput, lease_acquire_schema, lease_heartbeat_schema}

-- `deviceId || '00000000-0000-0000-0000-000000000000'`
abbrev pub device_or_default : Option String → String
device_or_default none = "00000000-0000-0000-0000-000000000000"
device_or_default (some t) = if t == "" then "00000000-0000-0000-0000-000000000000" else t

abbrev challenge_of : AcquireInput → Challenge
challenge_of input = record { nonce = input.nonce; signature = input.signature }

-- `signed && input.data.deviceId`
abbrev pub is_signed : AcquireInput → Bool
is_signed input = is_text input.nonce && is_text input.signature && is_text input.device_id

pub check_signature : Runtime → Moment → ApiUser → AcquireInput → M (Unit {0})
check_signature rt m user input = when (is_signed input) (do
  verified ← gets (
      verify_device_challenge rt.signatures m.now user.id (get_or input.device_id "")
        input.account_id (get_or input.nonce "") (get_or input.signature ""))
  ensure verified
      (http_error 401 "INVALID_DEVICE_SIGNATURE" "Device challenge could not be verified"))

acquire_route : Runtime → Moment → Request → ApiUser → M Reply
acquire_route rt m r user = do
  input ←
      read_input (lease_acquire_schema rt.zod)
        (http_error 400 "INVALID_LEASE_REQUEST" "Account ID is required") r
  check_signature rt m user input
  lease ← with_http_errors (
      acquire_lease m user.id input.account_id (device_or_default input.device_id)
        (challenge_of input))
  send 200 (granted lease)

abbrev invalid_reason : Failure
invalid_reason = http_error 400 "INVALID_RELEASE_REASON" "INVALID_RELEASE_REASON"

-- `input.reason ?? 'manual'`
abbrev pub reason_value : Value → M String
reason_value (text t) = pure t
reason_value null = pure "manual"
reason_value missing = pure "manual"
reason_value _ = throw invalid_reason

-- of a body that no schema has seen
abbrev reason_of : Document → M String
reason_of null_document = throw (plain "TypeError")
reason_of not_object = pure "manual"
reason_of (object f) = reason_value (f "reason")

release_route : Runtime → Moment → Request → ApiUser → M Reply
release_route rt m r user = do
  input ← read_json r.body
  session_id ← route_uuid rt (part 2 r.parts) "INVALID_SESSION_ID"
  reason ← reason_of input
  with_http_errors (release_lease rt.zod.is_uuid m user session_id reason)
  done

heartbeat_route : Runtime → Moment → Request → ApiUser → M Reply
heartbeat_route rt m r user = do
  state ←
      read_input lease_heartbeat_schema
        (http_error 400 "INVALID_HEARTBEAT" "Runtime state is invalid") r
  session_id ← route_uuid rt (part 2 r.parts) "INVALID_SESSION_ID"
  with_http_errors (heartbeat_lease m user.id session_id state)
  done

blob_route : Runtime → Moment → Request → ApiUser → M Reply
blob_route rt m r user = do
  session_id ← route_uuid rt (part 2 r.parts) "INVALID_SESSION_ID"
  blob ← with_http_errors (get_account_session_blob rt.cipher rt.vault_key m user.id session_id)
  send 200 (secret blob)

pub handle_lease_routes : Runtime → Moment → Request → M Reply
handle_lease_routes rt m r = do
  user ← current_user rt r
  if is_part 2 "acquire" r && r.method == "POST"
      then acquire_route rt m r user
      else if is_route 4 "POST" r && is_part 3 "release" r
      then release_route rt m r user
      else if is_route 4 "POST" r && is_part 3 "heartbeat" r
      then heartbeat_route rt m r user
      else if is_route 4 "GET" r && is_part 3 "session-blob" r
      then blob_route rt m r user
      else throw not_found
