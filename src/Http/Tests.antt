-- ===== src/Http/Tests.antt =====
-- The HTTP layer at the sample database.
use laap.Base.{[], arith, false, if◌then◌else◌, none, refl, some, true, ◌==◌, ◌∷◌, ◌≡◌, ◌≤◌}
use laap.Base.Rows.{find_where, distinct_by, exists_where, update_where}
use laap.Exec.{after, ensure, or_throw, ◌>>=◌, when, transaction, gets, pure}
use laap.Exec.Refuses.{Refuses}
use laap.Http.Accounts.Reopened.{update_route-reopens}
use laap.Http.Accounts.{update_route}
use laap.Accounts.{guard_offline, update_account, write_patch}
use laap.Accounts.Patched.{HasStatus}
use laap.Users.{public_user, find_user_by_id}
use laap.Db.{Moment, update_accounts, write_accounts}
use laap.Samples.{admin_user, start, at_time, leased, maya, nova}
use laap.Http.Context.{
  Answer, read_input, route_uuid, require_current_admin, Claims, Incoming, Request, Runtime, object,
  read_auth, read_json, within_limit,
}
use laap.Audit.{add_audit}
use laap.Schema.{Db, accounts_ok}
use laap.Http.Context.Bounds.{read_json-limit, total}
use laap.Http.Context.Keeps.{config_of}
use laap.Http.Auth.{limiter_key}
use laap.Http.Origin.{Origins}
use laap.Http.Auth.{limiter_key}
use laap.Http.RateLimit.{Entries, Limiter, allow, sweep}
use laap.Http.RateLimit.Window.{admitted, admitted-limit, sweep-allow}
use laap.Http.Router.{dispatch, request, serve_all, timer}
use laap.Http.Router.Guarded.{dispatch-Refuses}
use laap.Http.Router.Operators.{dispatch-Stays}
use laap.Http.Router.Refines.{Reached, serve_all-Reached}
use laap.SecretBox.{js_length}
use laap.Types.{AccountStatus, UserRole}
use laap.Validation.{Fields, Zod, missing, text}
use laap.Validation.Requests.{account_update_schema}

abbrev two_a_second : Limiter
two_a_second = record { limit = 2; window_ms = 1000 }

abbrev nobody : Entries
nobody key = none

-- four attempts in a window of two
admitted-limit_example :
    admitted two_a_second "10.0.0.1" nobody (5000 ∷ 5100 ∷ 5200 ∷ 5999 ∷ []) ≤ 2
admitted-limit_example =
    admitted-limit two_a_second "10.0.0.1" nobody 5000 (5100 ∷ 5200 ∷ 5999 ∷ []) refl
      (omega arith, (omega arith, (omega arith, tt))) (omega arith)

-- an entry that has used its attempts, and one that has run out
abbrev busy : Entries
busy key =
    if key == "10.0.0.1"
    then some (record { count = 2; reset_at = 6000 })
    else if key == "10.0.0.2"
    then some (record { count = 1; reset_at = 4000 })
    else none

sweep-allow_example :
    (allow two_a_second 5500 "10.0.0.1" (sweep 5400 busy)).0
    ≡ (allow two_a_second 5500 "10.0.0.1" busy).0
sweep-allow_example = sweep-allow two_a_second "10.0.0.1" busy 5400 5500 (omega arith)

abbrev zod : Zod
zod = record {
  is_uuid = λ t. true;
  is_email = λ t. true;
  is_datetime = λ t. true;
  expiry_of = λ t. record { time = 0; passes = 0 };
  trim = λ t. t;
}

abbrev runtime : Runtime
runtime = record {
  jwt_secret = "0123456789abcdef0123456789abcdef";
  vault_key = "0123456789abcdef0123456789abcdef";
  enable_demo_auth = false;
  zod = zod;
  texts = record { sql_lower = λ t. t; to_lower = λ t. t; hash = λ t. t; compare = λ a b. a == b };
  cipher = record {
    seal = λ k c value. record { iv = "i"; tag = "t"; body = value };
    unseal = λ k c e. some e.body;
    byte_length = λ t. if t == "i" then 12 else 16;
  };
  signatures = record { distance = λ t now. none; byte_length = λ t. 32; verify = λ k n s. false };
  jwt_verify = λ t s. none;
  number = λ t. if t == "500" then some 500 else none;
}

abbrev renaming : Fields
renaming key = if key == "displayName" then text "Nova" else missing

abbrev two_chunks : Incoming
two_chunks = record { declared = 40; chunks = 20 ∷ 20 ∷ []; document = some (object renaming) }

read_json-limit_example : total two_chunks.chunks ≤ 1048576
unfolding read_json within_limit ◌>>=◌ ensure or_throw
read_json-limit_example = read_json-limit two_chunks (object renaming) leased leased refl

-- DELETE /api/accounts/a1 without a token
abbrev anonymous : Request
anonymous = record {
  method = "DELETE";
  pathname = "/api/accounts/a1";
  parts = "api" ∷ "accounts" ∷ "a1" ∷ [];
  is_json = true;
  bearer = none;
  cookie_token = none;
  is_desktop = false;
  cf_connecting_ip = none;
  x_forwarded_for = some "10.0.0.1, 10.0.0.2";
  remote_address = some "127.0.0.1";
  limit = none;
  offset = none;
  body = two_chunks;
}

-- the first of the addresses that the proxy names
first_address : limiter_key anonymous ≡ "10.0.0.1"
unfolding limiter_key
first_address = refl

dispatch-Refuses_example : Refuses (dispatch runtime (at_time 1070000 "r") anonymous) leased
unfolding read_auth
dispatch-Refuses_example = dispatch-Refuses runtime (at_time 1070000 "r") anonymous leased refl

serve_all-Reached_example :
    Reached
      (config_of runtime)
      leased
      (serve_all runtime
        (record { db = leased; entries = nobody })
        ((at_time 1070000 "r", request anonymous) ∷ (at_time 2000000 "q", timer) ∷ [])).db
serve_all-Reached_example =
    serve_all-Reached runtime (record { db = leased; entries = nobody })
      ((at_time 1070000 "r", request anonymous) ∷ (at_time 2000000 "q", timer) ∷ [])

-- a production server with one configured origin
abbrev two_origins : Origins
two_origins = record {
  production = true;
  first_allowed = "https://admin.example";
  more_allowed = "http://localhost:3000" ∷ [];
  to_lower = λ t. t;
}

-- an operator's token, and the same request with it
abbrev operator_claims : Claims
operator_claims = record {
  sub = "u1";
  email = "maya@laap.local";
  display_name = "Maya";
  role = UserRole.operator;
}

abbrev signed_runtime : Runtime
signed_runtime = record runtime {
  jwt_verify = λ t s. if t == "token" then some operator_claims else none;
}

abbrev by_operator : Request
by_operator = record anonymous { bearer = some "token" }

dispatch-Stays_example :
    after (dispatch signed_runtime (at_time 1070000 "r") by_operator leased) ≡ leased
unfolding read_auth find_user_by_id find_where
dispatch-Stays_example =
    dispatch-Stays signed_runtime (at_time 1070000 "r") by_operator leased (public_user maya) refl
      refl refl refl refl

-- GET /api/accounts by the operator
abbrev own_accounts : Request
own_accounts = record by_operator { method = "GET"; parts = "api" ∷ "accounts" ∷ [] }

-- PATCH /api/accounts/a1 with a new name, of an account in maintenance that nobody holds
abbrev closed : Db
closed = record start { accounts = record nova { status = AccountStatus.maintenance } ∷ [] }

abbrev moment : Moment
moment = at_time 1070000 "r"

update_route-reopens_example :
    HasStatus "a1" AccountStatus.available
      (after (update_route runtime moment anonymous (public_user admin_user) closed))
unfolding update_route read_input route_uuid read_json within_limit account_update_schema js_length
    update_account write_patch update_accounts write_accounts when transaction guard_offline
    require_current_admin ◌>>=◌ ensure or_throw gets pure accounts_ok distinct_by exists_where
    find_where update_where add_audit
update_route-reopens_example =
    update_route-reopens runtime moment anonymous (public_user admin_user) renaming "a1"
      (record { status = 200; answer = Answer.success }) closed
      (after (update_route runtime moment anonymous (public_user admin_user) closed)) refl refl refl
      refl
