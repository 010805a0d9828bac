-- ===== src/Validation/Requests.antt =====
-- The schemas of packages/validation/src/index.ts on the fields of a request body. Each returns
-- `none` where `safeParse` fails.
use Prim.Native.Char.{code}
use Prim.Native.String.{[], ◌∷◌}
use laap.Base.{
  Bool, Option, String, [], false, if◌then◌else◌, is_some, leb, nat_eq, none, some, true, ℕ, ◌&&◌,
  ◌==◌, ◌||◌, ◌∷◌,
}
use laap.Accounts.{AccountInput, AccountPatch}
use laap.Devices.{DeviceInput}
use laap.SecretBox.{js_length}
use laap.Types.{AccountStatus, Platform, SessionRuntimeState, UserRole, UserStatus}
use laap.Users.{UserInput, UserPatch}
use laap.Validation.{
  Expiry, Fields, Value, Zod, defaulted, enum_field, flag, has_length, missing, null, optional,
  string_field, text, trimmed_field,
}

infixl 10 ◌>>=◌
abbrev ◌>>=◌ : {A B : Type 0} → Option A → (A → Option B) → Option B
none >>= f = none
some a >>= f = f a

abbrev pub parse_role : String → Option UserRole
parse_role t =
    if t == "operator"
    then some UserRole.operator
    else if t == "admin"
    then some UserRole.admin
    else none

abbrev pub parse_user_status : String → Option UserStatus
parse_user_status t =
    if t == "active"
    then some UserStatus.active
    else if t == "suspended"
    then some UserStatus.suspended
    else if t == "disabled"
    then some UserStatus.disabled
    else none

abbrev pub parse_account_status : String → Option AccountStatus
parse_account_status t =
    if t == "available"
    then some AccountStatus.available
    else if t == "maintenance"
    then some AccountStatus.maintenance
    else if t == "disabled"
    then some AccountStatus.disabled
    else none

abbrev pub parse_platform : String → Option Platform
parse_platform t =
    if t == "windows"
    then some Platform.windows
    else if t == "macos"
    then some Platform.macos
    else none

abbrev pub parse_runtime_state : String → Option SessionRuntimeState
parse_runtime_state t =
    if t == "LAUNCHING"
    then some SessionRuntimeState.launching
    else if t == "IN_CLIENT"
    then some SessionRuntimeState.in_client
    else if t == "IN_GAME"
    then some SessionRuntimeState.in_game
    else if t == "RECONNECTING"
    then some SessionRuntimeState.reconnecting
    else if t == "EXITED"
    then some SessionRuntimeState.exited
    else none

-- [A-Za-z0-9+/]
abbrev is_base64 : ℕ → Bool
is_base64 c =
    leb 65 c && leb c 90
    || (leb 97 c && leb c 122 || (leb 48 c && leb c 57 || (nat_eq c 43 || nat_eq c 47)))

unfoldable pub all_base64 : String → Bool
all_base64 [] = true
all_base64 (c ∷ s) = is_base64 (code c) && all_base64 s

-- /^[A-Za-z0-9+/]{n}$/
abbrev pub base64_of : ℕ → String → Bool
base64_of n t = all_base64 t && nat_eq (js_length t) n

pub record Credentials : Type 0 where
  pub email : String
  pub password : String
  pub remember : Bool

abbrev flag_field : Value → Option Bool
flag_field (flag b) = some b
flag_field _ = none

pub login_schema : Zod → Fields → Option Credentials
login_schema z f = do
  email ← string_field (λ t. z.is_email t && has_length 0 254 t) (f "email")
  password ← string_field (has_length 8 256) (f "password")
  remember ← defaulted false flag_field (f "remember")
  some (record { email = email; password = password; remember = remember })

pub user_create_schema : Zod → Fields → Option UserInput
user_create_schema z f = do
  email ← string_field (λ t. z.is_email t && has_length 0 254 t) (f "email")
  display_name ← trimmed_field z (has_length 2 120) (f "displayName")
  password ← string_field (has_length 12 256) (f "password")
  role ← defaulted UserRole.operator (enum_field parse_role) (f "role")
  some (record { email = email; display_name = display_name; password = password; role = role })

-- `.refine((value) => Object.keys(value).length > 0)`
abbrev pub non_empty : {A : Type 0} → Bool → A → Option A
non_empty test a = if test then some a else none

pub user_update_schema : Zod → Fields → Option UserPatch
user_update_schema z f = do
  display_name ← optional (trimmed_field z (has_length 2 120)) (f "displayName")
  role ← optional (enum_field parse_role) (f "role")
  status ← optional (enum_field parse_user_status) (f "status")
  non_empty (is_some display_name || (is_some role || is_some status))
      (record { display_name = display_name; role = role; status = status })

pub user_password_reset_schema : Fields → Option String
user_password_reset_schema f = string_field (has_length 12 256) (f "password")

pub device_registration_schema : Zod → Fields → Option DeviceInput
device_registration_schema z f = do
  public_key ← string_field (base64_of 43) (f "publicKey")
  platform ← enum_field parse_platform (f "platform")
  device_name ← trimmed_field z (has_length 1 120) (f "deviceName")
  app_version ← trimmed_field z (has_length 1 32) (f "appVersion")
  some (record {
    public_key = public_key;
    platform = platform;
    device_name = device_name;
    app_version = app_version;
  })

pub device_heartbeat_schema : Zod → Fields → Option (Option String)
device_heartbeat_schema z f = optional (trimmed_field z (has_length 1 32)) (f "appVersion")

pub record AssignmentInput : Type 0 where
  pub account_id : String
  pub user_id : String
  pub expires_at : Option Expiry

-- `z.string().datetime().nullable().optional()`: the text as an `Expiry`, none for null or undefined
abbrev expiry_field : Zod → Value → Option (Option Expiry)
expiry_field z (text t) = if z.is_datetime t then some (some (z.expiry_of t)) else none
expiry_field z null = some none
expiry_field z missing = some none
expiry_field z _ = none

pub assignment_schema : Zod → Fields → Option AssignmentInput
assignment_schema z f = do
  account_id ← string_field z.is_uuid (f "accountId")
  user_id ← string_field z.is_uuid (f "userId")
  expires_at ← expiry_field z (f "expiresAt")
  some (record { account_id = account_id; user_id = user_id; expires_at = expires_at })

pub account_create_schema : Zod → Fields → Option AccountInput
account_create_schema z f = do
  display_name ← trimmed_field z (has_length 3 80) (f "displayName")
  external_id ← trimmed_field z (has_length 3 120) (f "externalId")
  region ← trimmed_field z (has_length 2 16) (f "region")
  status ← defaulted AccountStatus.available (enum_field parse_account_status) (f "status")
  some (record {
    display_name = display_name;
    external_id = external_id;
    region = region;
    status = status;
  })

-- `accountCreateSchema.partial()`. zod 4 applies a default inside an optional field, so the status
-- of the parsed value is 'available' where the request has none, and no parsed value is empty.
unfoldable pub account_update_schema : Zod → Fields → Option AccountPatch
account_update_schema z f = do
  display_name ← optional (trimmed_field z (has_length 3 80)) (f "displayName")
  external_id ← optional (trimmed_field z (has_length 3 120)) (f "externalId")
  region ← optional (trimmed_field z (has_length 2 16)) (f "region")
  status ← defaulted AccountStatus.available (enum_field parse_account_status) (f "status")
  some (record {
    display_name = display_name;
    external_id = external_id;
    region = region;
    status = some status;
  })

pub record AcquireInput : Type 0 where
  pub account_id : String
  pub device_id : Option String
  pub nonce : Option String
  pub signature : Option String

pub lease_acquire_schema : Zod → Fields → Option AcquireInput
lease_acquire_schema z f = do
  account_id ← string_field z.is_uuid (f "accountId")
  device_id ← optional (string_field (λ t. true)) (f "deviceId")
  nonce ← optional (string_field (has_length 16 256)) (f "nonce")
  signature ← optional (string_field (base64_of 86)) (f "signature")
  some (record {
    account_id = account_id;
    device_id = device_id;
    nonce = nonce;
    signature = signature;
  })

pub lease_heartbeat_schema : Fields → Option SessionRuntimeState
lease_heartbeat_schema f =
    defaulted SessionRuntimeState.in_client (enum_field parse_runtime_state) (f "runtimeState")

pub session_blob_schema : Fields → Option String
session_blob_schema f = string_field (has_length 10 131072) (f "sessionBlob")
