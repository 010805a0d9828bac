-- ===== src/Http/Auth/Unchanged.antt =====
-- Signing in writes nothing to the database.
use laap.Base.{Bool-cases, String, arith, inl, inr, refl, ◌∙◌, ◌≡◌}
use laap.Db.{Moment}
use laap.Exec.{Outcome, after, err, http_error, ok, pure, throw}
use laap.Exec.Keeps.{Keeps}
use laap.Http.Auth.{
  limiter_key, Login, attempt, credentials, demo_route, handle_auth_routes, login_limiter,
  login_route, session_route, signed,
}
use laap.Http.Context.{Request, Runtime, read_input}
use laap.Http.Context.Keeps.{http_rules}
use laap.Http.RateLimit.{Entries, Verdict, allow}
use laap.Schema.{Db}
use laap.Types.{ApiUser}
use laap.Users.{Texts, authenticate}
use laap.Users.Statements.{authenticate_kept}
use laap.Validation.Requests.{Credentials, login_schema}

-- what a login leaves of the database
abbrev pub login_db : Login → Db
login_db l = after l.0

authenticate-after :
    (t : Texts) (email password : String) (db : Db) → after (authenticate t email password db) ≡ db
authenticate-after t email password db =
    (authenticate_kept (λ d. d ≡ db) t email password).at db refl

signed-db :
    (key : String) (entries : Entries) (o : Outcome ApiUser)
    → login_db (signed key entries o) ≡ after o
signed-db key entries (ok user db) = refl
signed-db key entries (err e db) = refl

credentials-db :
    (rt : Runtime) (key : String) (entries : Entries) (o : Outcome Credentials)
    → login_db (credentials rt key entries o) ≡ after o
credentials-db rt key entries (ok input db) =
    signed-db key entries (authenticate rt.texts input.email input.password db)
    ∙ authenticate-after rt.texts input.email input.password db
credentials-db rt key entries (err e db) = refl

attempt-db :
    (rt : Runtime) (r : Request) (db : Db) (v : Verdict × Entries)
    → login_db (attempt rt r db v) ≡ db
unfolding attempt
attempt-db rt r db (v, entries) = elim (Bool-cases v.allowed) [
  | inl allowed_ ↦
      let input =
        read_input (login_schema rt.zod)
          (http_error 400 "INVALID_LOGIN" "Enter a valid email and password") r in
      let k : Keeps (λ d. d ≡ db) input = search http_rules in
      rw allowed_ (credentials-db rt (limiter_key r) entries (input db) ∙ k.at db refl)
  | inr refused ↦ rw refused refl
]

session_route-db : (rt : Runtime) (r : Request) (db : Db) → after (session_route rt r db) ≡ db
unfolding session_route
session_route-db rt r db =
    let k : Keeps (λ d. d ≡ db) (session_route rt r) = search http_rules in k.at db refl

demo_route-db : (rt : Runtime) (db : Db) → after (demo_route rt db) ≡ db
unfolding demo_route
demo_route-db rt db =
    let k : Keeps (λ d. d ≡ db) (demo_route rt) = search http_rules depth 12 in k.at db refl

pub handle_auth_routes-db :
    (rt : Runtime) (m : Moment) (r : Request) (entries : Entries) (db : Db)
    → login_db (handle_auth_routes rt m r entries db) ≡ db
unfolding handle_auth_routes login_route pure throw
handle_auth_routes-db rt m r entries db = ground (
  arith,
  session_route-db rt r db,
  demo_route-db rt db,
  attempt-db rt r db (allow login_limiter m.now (limiter_key r) entries),
)
