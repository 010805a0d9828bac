-- ===== src/Http/Router.antt =====
-- `routeRequest` (apps/api/src/router.ts) and the handler of apps/api/src/server.ts around it.
pub mod Refines
pub mod Guarded
pub mod Operators
pub mod Confined
use laap.Base.{
  Bool, List, Option, String, [], false, if◌then◌else◌, none, not, some, ◌&&◌, ◌==◌, ◌||◌, ◌∷◌,
}
use laap.Db.{Moment}
use laap.Exec.{Failure, M, after, http_error, throw}
use laap.Http.Accounts.{handle_account_routes}
use laap.Http.Admin.{handle_admin_and_dashboard_routes}
use laap.Http.Auth.{Login, handle_auth_routes}
use laap.Http.Context.{Reply, Request, Runtime, health, is_part, not_found, part, send}
use laap.Http.Devices.{handle_device_routes}
use laap.Http.Leases.{handle_lease_routes}
use laap.Http.RateLimit.{Entries, sweep}
use laap.Leases.{reap_stale_sessions}
use laap.Schema.{Db}

abbrev pub one_of : String → List String → Bool
one_of t [] = false
one_of t (x ∷ xs) = t == x || one_of t xs

-- the request has a body that is not declared as JSON
abbrev pub lacks_json : Request → Bool
lacks_json r =
    one_of r.method ("POST" ∷ "PATCH" ∷ "PUT" ∷ [])
    && (not (one_of r.pathname ("/api/auth/demo" ∷ "/api/auth/logout" ∷ [])) && not r.is_json)

abbrev unsupported : Failure
unsupported = http_error 415 "UNSUPPORTED_MEDIA_TYPE" "JSON request body required"

abbrev admin_parts : List String
admin_parts =
    "dashboard" ∷ "metrics" ∷ "sessions" ∷ "activity" ∷ "users" ∷ "assignments" ∷ "audit" ∷ []

abbrev is_one_of : Option String → List String → Bool
is_one_of none names = false
is_one_of (some t) names = one_of t names

-- the handlers that leave the limiter alone
pub dispatch : Runtime → Moment → Request → M Reply
dispatch rt m r =
    if is_part 1 "accounts" r
    then handle_account_routes rt m r
    else if is_part 1 "leases" r
    then handle_lease_routes rt m r
    else if is_part 1 "devices" r
    then handle_device_routes rt m r
    else if is_one_of (part 1 r.parts) admin_parts
    then handle_admin_and_dashboard_routes rt m r
    else throw not_found

pub route_request : Runtime → Moment → Request → Entries → Db → Login
route_request rt m r entries db =
    if not (is_part 0 "api" r)
    then (throw not_found db, entries)
    else if lacks_json r
    then (throw unsupported db, entries)
    else if (is_part 1 "health" r || is_part 1 "ready" r) && r.method == "GET"
    then (send 200 health db, entries)
    else if is_part 1 "auth" r
    then handle_auth_routes rt m r entries db
    else (dispatch rt m r db, entries)

-- what the server keeps between two requests
pub record ServerState : Type 0 where
  pub db : Db
  pub entries : Entries

-- a request, or a tick of the reaper's timer
pub data Event : Type 0 where
  request : Request → Event
  timer : Event

pub serve : Runtime → Moment → Event → ServerState → ServerState
serve rt m (request r) s =
    let (reply, entries) = route_request rt m r s.entries s.db in
    record { db = after reply; entries = entries }
serve rt m timer s = record {
  db = after (reap_stale_sessions m s.db);
  entries = sweep m.now s.entries;
}

pub serve_all : Runtime → ServerState → List (Moment × Event) → ServerState
serve_all rt s [] = s
serve_all rt s ((m, e) ∷ rest) = serve_all rt (serve rt m e s) rest
