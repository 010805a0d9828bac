-- ===== src/Validation.antt =====
-- packages/validation/src/index.ts: the schemas of the requests. What zod decides about a text alone
-- (UUID, e-mail, date, trimming) is the parameter `Zod`.
pub mod Requests
use mathlib.Core.Option
use laap.Base.{Bool, Option, String, if◌then◌else◌, leb, none, some, ℕ, ◌&&◌, ◌==◌}
use laap.Schema.{Expiry}
use laap.SecretBox.{js_length}
use laap.Types.{expired, ReleaseReason}

-- the tests on a text that zod brings
pub record Zod : Type 0 where
  pub is_uuid : String → Bool
  pub is_email : String → Bool
  pub is_datetime : String → Bool
  pub expiry_of : String → Expiry
  pub trim : String → String

-- The value of a field of a JSON object: `missing` for undefined, `other` for a number, an array or
-- an object.
pub data Value : Type 0 where
  text : String → Value
  flag : Bool → Value
  null missing other : Value

abbrev pub Fields : Type 0
Fields = String → Value

-- `z.string()` with a test, on a field
abbrev pub string_field : (String → Bool) → Value → Option String
string_field test (text t) = if test t then some t else none
string_field test _ = none

-- `z.string().trim()` with a test on the trimmed text
abbrev pub trimmed_field : Zod → (String → Bool) → Value → Option String
trimmed_field z test (text t) = if test (z.trim t) then some (z.trim t) else none
trimmed_field z test _ = none

-- `.optional()`: `some none` for undefined
abbrev pub optional : {A : Type 0} → (Value → Option A) → Value → Option (Option A)
optional parse missing = some none
optional parse v = Option.map some (parse v)

-- `.default(d)`
abbrev pub defaulted : {A : Type 0} → A → (Value → Option A) → Value → Option A
defaulted d parse missing = some d
defaulted d parse v = parse v

-- `.min(low).max(high)`
abbrev pub has_length : ℕ → ℕ → String → Bool
has_length low high t = leb low (js_length t) && leb (js_length t) high

-- z.enum([...]) over a field
abbrev pub enum_field : {A : Type 0} → (String → Option A) → Value → Option A
enum_field parse (text t) = parse t
enum_field parse _ = none

-- z.enum([...]) of `releaseLeaseSchema`
pub parse_release_reason : String → Option ReleaseReason
parse_release_reason t =
    if t == "manual"
    then some ReleaseReason.manual
    else if t == "logout"
    then some ReleaseReason.logout
    else if t == "lease_timeout"
    then some ReleaseReason.lease_timeout
    else if t == "admin_force_release"
    then some ReleaseReason.admin_force_release
    else if t == "error"
    then some ReleaseReason.error
    else none

-- `releaseLeaseSchema.safeParse`: `none` when it fails
pub release_lease_schema : (String → Bool) → String → String → Option ReleaseReason
release_lease_schema is_uuid session_id reason =
    if is_uuid session_id then parse_release_reason reason else none
