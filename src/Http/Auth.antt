-- ===== src/Http/Auth.antt =====
-- apps/api/src/routes/auth.routes.ts: signing in, with the limiter's entries beside the database.
pub mod Unchanged
use laap.Base.{Option, String, if◌then◌else◌, none, some, ℕ, ◌&&◌, ◌==◌, List, [], ◌∷◌}
use laap.Db.{Moment}
use laap.Exec.{Failure, M, Outcome, ensure, err, gets, http_error, ok, or_throw, throw, ◌>>=◌, ◌>>◌}
use laap.Http.Context.{
  Claims, Reply, Request, Runtime, active, done, is_part, not_found, profile, read_auth, read_input,
  send, service_error_to_http, signed_in,
}
use laap.Http.RateLimit.{Entries, Limiter, Verdict, allow, reset}
use laap.Text.{split, trim}
use laap.Schema.{Db}
use laap.Types.{ApiUser}
use laap.Users.{authenticate, find_user_by_email, find_user_by_id}
use laap.Validation.Requests.{Credentials, login_schema}

session_route : Runtime → Request → M Reply
session_route rt r = do
  found ← gets (session_user (read_auth rt r))
  send 200 (profile (active found))
  where
    session_user : Option Claims → Db → Option ApiUser
    session_user none db = none
    session_user (some c) db = find_user_by_id c.sub db

abbrev demo_missing : Failure
demo_missing = http_error 500 "DEMO_USER_MISSING" "DEMO_USER_MISSING"

demo_route : Runtime → M Reply
demo_route rt = do
  ensure rt.enable_demo_auth not_found
  found ← gets (find_user_by_email rt.texts "admin@laap.local")
  row ← or_throw found demo_missing
  shown_user ← gets (find_user_by_id row.id)
  user ← or_throw shown_user demo_missing
  send 200 (signed_in user)

-- `headers['cf-connecting-ip'] ?? headers['x-forwarded-for'] ?? ''`
abbrev forwarded : Option String → Option String → String
forwarded (some t) other = t
forwarded none (some t) = t
forwarded none none = ""

-- `[0]` of what `split` returns, which is never empty
abbrev first_part : List String → String
first_part [] = ""
first_part (t ∷ ts) = t

-- `socket.remoteAddress || 'unknown'`
abbrev address : Option String → String
address none = "unknown"
address (some t) = if t == "" then "unknown" else t

-- the key of the login limiter
unfoldable pub limiter_key : Request → String
unfolding split
limiter_key r =
    let ip = trim (first_part (split 44 (forwarded r.cf_connecting_ip r.x_forwarded_for))) in
    if ip == "" then address r.remote_address else ip

-- the answer to a login, with what it leaves of the limiter's entries
abbrev pub Login : Type 0
Login = Outcome Reply × Entries

-- `loginLimiter.reset(key)` when `authenticate` returns
abbrev signed : String → Entries → Outcome ApiUser → Login
signed key entries (ok user db) =
    (ok (record { status = 200; answer = signed_in user }) db, reset key entries)
signed key entries (err e db) = (err (service_error_to_http e) db, entries)

abbrev credentials : Runtime → String → Entries → Outcome Credentials → Login
credentials rt key entries (ok input db) =
    signed key entries (authenticate rt.texts input.email input.password db)
credentials rt key entries (err e db) = (err e db, entries)

-- the message also names the seconds
abbrev limited : ℕ → Failure
limited seconds = http_error 429 "RATE_LIMITED" "Too many login attempts"

attempt : Runtime → Request → Db → Verdict × Entries → Login
attempt rt r db (v, entries) =
    if v.allowed
    then credentials rt (limiter_key r) entries (
        read_input (login_schema rt.zod)
          (http_error 400 "INVALID_LOGIN" "Enter a valid email and password") r db)
    else (err (limited v.retry_after_seconds) db, entries)

-- eight attempts in five minutes
abbrev pub login_limiter : Limiter
login_limiter = record { limit = 8; window_ms = 300000 }

pub login_route : Runtime → Moment → Request → Entries → Db → Login
login_route rt m r entries db = attempt rt r db (allow login_limiter m.now (limiter_key r) entries)

pub handle_auth_routes : Runtime → Moment → Request → Entries → Db → Login
handle_auth_routes rt m r entries db =
    if is_part 2 "session" r && r.method == "GET"
    then (session_route rt r db, entries)
    else if is_part 2 "demo" r && r.method == "POST"
    then (demo_route rt db, entries)
    else if is_part 2 "login" r && r.method == "POST"
    then login_route rt m r entries db
    else if is_part 2 "logout" r && r.method == "POST"
    then (done db, entries)
    else (throw not_found db, entries)
