-- ===== src/Http/Context.antt =====
-- What a route is given: apps/api/src/routes/types.ts, apps/api/src/http/body.ts and
-- apps/api/src/http/auth.ts. The URL and the headers are already split.
pub mod Keeps
pub mod Bounds
use laap.Base.{
  Bool, List, Option, String, [], false, if◌then◌else◌, leb, length, ltb, min, nat_eq, none, some,
  suc, true, zero, ℕ, ◌&&◌, ◌+◌, ◌==◌, ◌∷◌,
}
use laap.Devices.Challenge.{Signatures}
use laap.Exec.{
  Failure, M, Outcome, ensure, err, gets, http_error, ok, or_throw, pure, service, ◌>>=◌, ◌>>◌,
}
use laap.Leases.{Lease}
use laap.SecretBox.{Cipher}
use laap.Types.{ApiUser, UserRole, is_active_user, is_admin}
use laap.Users.{Texts, find_user_by_id}
use laap.Validation.{Fields, Zod, missing}

-- `AuthClaims` of http/auth.ts
pub record Claims : Type 0 where
  pub sub : String
  pub email : String
  pub display_name : String
  pub role : UserRole

-- The runtime's configuration, and the libraries: zod, jose (a token's claims, `none` where
-- `jwtVerify` throws or a claim is not of its type), bcryptjs, Node's cipher and signatures.
pub record Runtime : Type 0 where
  pub jwt_secret : String
  pub vault_key : String
  pub enable_demo_auth : Bool
  pub zod : Zod
  pub texts : Texts
  pub cipher : Cipher
  pub signatures : Signatures
  pub jwt_verify : String → String → Option Claims
  pub number : String → Option ℕ

-- A JSON document: an object, by its fields, `null`, or another value.
pub data Document : Type 0 where
  object : Fields → Document
  null_document not_object : Document

-- The declared length, the bytes of each chunk, and what `JSON.parse` makes of them.
pub record Incoming : Type 0 where
  pub declared : ℕ
  pub chunks : List ℕ
  pub document : Option Document

-- `cookie_token` is `readCookie` of the header `Cookie`.
pub record Request : Type 0 where
  pub method : String
  pub pathname : String
  pub parts : List String
  pub is_json : Bool
  pub bearer : Option String
  pub cookie_token : Option String
  pub is_desktop : Bool
  pub cf_connecting_ip : Option String
  pub x_forwarded_for : Option String
  pub remote_address : Option String
  pub limit : Option String
  pub offset : Option String
  pub body : Incoming

-- The queries that a reply carries; they only read. `snapshot` is `DashboardSnapshot`: the profile, and the
-- lists and metrics that `getDashboard` limits to that user unless it is an administrator.
pub data View : Type 0 where
  list_accounts list_devices get_metrics list_sessions list_activity : Option String → View
  snapshot : ApiUser → View
  list_users list_assignments : View
  audit_page : ℕ → ℕ → View

pub data Answer : Type 0 where
  success : Answer
  created : String → Answer
  granted : Lease → Answer
  secret : String → Answer
  profile : Option ApiUser → Answer
  signed_in : ApiUser → Answer
  shown : View → Answer
  health : Answer

pub record Reply : Type 0 where
  pub status : ℕ
  pub answer : Answer

-- `sendJson(response, status, payload)`
abbrev pub send : ℕ → Answer → M Reply
send status answer = pure (record { status = status; answer = answer })

abbrev pub done : M Reply
done = send 200 success

-- `parts[n]`
abbrev pub part : ℕ → List String → Option String
part n [] = none
part zero (p ∷ ps) = some p
part (suc n) (p ∷ ps) = part n ps

abbrev pub is_text_of : String → Option String → Bool
is_text_of t none = false
is_text_of t (some p) = p == t

abbrev pub is_part : ℕ → String → Request → Bool
is_part n t r = is_text_of t (part n r.parts)

-- `parts.length === n && method === m`
abbrev pub is_route : ℕ → String → Request → Bool
is_route n m r = nat_eq (length r.parts) n && r.method == m

abbrev pub not_found : Failure
not_found = http_error 404 "NOT_FOUND" "NOT_FOUND"

abbrev pub too_large : Failure
too_large = http_error 413 "PAYLOAD_TOO_LARGE" "PAYLOAD_TOO_LARGE"

-- the loop over the chunks: the total never passes 1 MiB
unfoldable pub within_limit : ℕ → List ℕ → Bool
within_limit total [] = true
within_limit total (n ∷ chunks) =
    let rest = within_limit (total + n) chunks in leb (total + n) 1048576 && rest

-- a body of no bytes is `{}`
abbrev pub parsed : List ℕ → Option Document → Option Document
parsed [] document = some (object (λ key. missing))
parsed (n ∷ ns) document = document

unfoldable pub read_json : Incoming → M Document
read_json body = do
  ensure (leb body.declared 1048576) too_large
  ensure (within_limit 0 body.chunks) too_large
  or_throw (parsed body.chunks body.document)
      (http_error 400 "INVALID_JSON" "Request body must be valid JSON")

abbrev pub safe_parse : {A : Type 0} → (Fields → Option A) → Document → Option A
safe_parse schema (object f) = schema f
safe_parse schema _ = none

-- `schema.safeParse(await readJson(request))`, with the error of a body that fails
unfoldable pub read_input : {A : Type 0} → (Fields → Option A) → Failure → Request → M A
read_input schema error r = do
  document ← read_json r.body
  or_throw (safe_parse schema document) error

-- `readAuth`: the bearer token before the cookie
abbrev pub token_of : Option String → Option String → Option String
token_of none cookie = cookie
token_of (some t) cookie = some t

abbrev pub claims_of : Runtime → Option String → Option Claims
claims_of rt none = none
claims_of rt (some t) = if t == "" then none else rt.jwt_verify t rt.jwt_secret

unfoldable pub read_auth : Runtime → Request → Option Claims
read_auth rt r = claims_of rt (token_of r.bearer r.cookie_token)

abbrev pub active : Option ApiUser → Option ApiUser
active none = none
active (some u) = if is_active_user u.status then some u else none

pub current_user : Runtime → Request → M ApiUser
current_user rt r = do
  claims ← or_throw (read_auth rt r) (http_error 401 "UNAUTHENTICATED" "Sign in is required")
  found ← gets (find_user_by_id claims.sub)
  or_throw (active found) (http_error 401 "UNAUTHENTICATED" "Account is not active")

unfoldable pub require_current_admin : ApiUser → M (Unit {0})
require_current_admin user =
    ensure (is_admin user.role) (http_error 403 "ADMIN_REQUIRED" "Administrator access is required")

abbrev valid_uuid : Zod → Option String → Option String
valid_uuid z none = none
valid_uuid z (some t) = if z.is_uuid t then some t else none

unfoldable pub route_uuid : Runtime → Option String → String → M String
route_uuid rt value code =
    or_throw (valid_uuid rt.zod value) (http_error 400 code "Resource identifier is invalid")

-- `Number(value)` where it is a safe integer, none where it is not or is negative; every use has a
-- minimum of 0 or more
abbrev pub bounded : Option ℕ → ℕ → ℕ → ℕ → ℕ
bounded none fallback minimum maximum = fallback
bounded (some n) fallback minimum maximum = if ltb n minimum then fallback else min n maximum

-- `value === null || value.trim() === ''`
pub query_integer : Runtime → Option String → ℕ → ℕ → ℕ → ℕ
query_integer rt none fallback minimum maximum = fallback
query_integer rt (some t) fallback minimum maximum =
    if rt.zod.trim t == "" then fallback else bounded (rt.number t) fallback minimum maximum

-- `serviceErrorToHttp`
abbrev pub service_error_to_http : Failure → Failure
service_error_to_http (service e) =
    http_error e.status e.code
      (if leb 500 e.status then "The service is temporarily unavailable" else e.message)
service_error_to_http e = e

-- `try { … } catch (error) { throw serviceErrorToHttp(error) }`
abbrev rethrown : {A : Type 0} → Outcome A → Outcome A
rethrown (ok a db) = ok a db
rethrown (err e db) = err (service_error_to_http e) db

unfoldable pub with_http_errors : {A : Type 0} → M A → M A
with_http_errors m db = rethrown (m db)
