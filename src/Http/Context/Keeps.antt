-- ===== src/Http/Context/Keeps.antt =====
-- Reading a request and checking its user changes nothing; nor does a change of error.
use laap.Base.{Option, false, Option-cases, String, inl, inr, none, refl, some, ℕ, ◌≡◌}
use laap.Exec.{Failure, M, Outcome, after, ensure, err, gets, http_error, ok, or_throw, ◌>>=◌}
use laap.Exec.Keeps.{Keeps, keeps_rules}
use laap.Exec.Refuses.{Refuses}
use laap.Http.Context.{
  Answer, Claims, Incoming, Request, Runtime, active, current_user, read_auth, read_input,
  read_json, require_current_admin, rethrown, route_uuid, send, with_http_errors,
}
use laap.Schema.{Db}
use laap.Service.{Config}
use laap.Types.{ApiUser, is_admin}
use laap.Users.{find_user_by_id}
use laap.Validation.{Fields}

abbrev pub config_of : Runtime → Config
config_of rt = record {
  texts = rt.texts;
  is_uuid = rt.zod.is_uuid;
  cipher = rt.cipher;
  vault_key = rt.vault_key;
}

module _ {P : Db → Type 0} where
  pub send_kept : (status : ℕ) (answer : Answer) → Keeps P (send status answer)
  send_kept status answer = search keeps_rules

  pub read_json_kept : (body : Incoming) → Keeps P (read_json body)
  unfolding read_json
  read_json_kept body = search keeps_rules

  pub read_input_kept :
      {A : Type 0} (schema : Fields → Option A) (error : Failure) (r : Request)
      → Keeps P (read_input schema error r)
  unfolding read_input
  read_input_kept schema error r = search (keeps_rules, read_json_kept)

  pub current_user_kept : (rt : Runtime) (r : Request) → Keeps P (current_user rt r)
  unfolding current_user
  current_user_kept rt r = search keeps_rules depth 12

  pub require_current_admin_kept : (user : ApiUser) → Keeps P (require_current_admin user)
  unfolding require_current_admin
  require_current_admin_kept user = search keeps_rules

  pub route_uuid_kept :
      (rt : Runtime) (value : Option String) (code : String) → Keeps P (route_uuid rt value code)
  unfolding route_uuid
  route_uuid_kept rt value code = search keeps_rules

rethrown-after : {A : Type 0} (o : Outcome A) → after (rethrown o) ≡ after o
rethrown-after (ok a db) = refl
rethrown-after (err e db) = refl

pub with_http_errors_kept :
    {A : Type 0} {P : Db → Type 0} (m : M A) → Keeps P m → Keeps P (with_http_errors m)
unfolding with_http_errors
with_http_errors_kept m k = record { at = λ db h. rw (rethrown-after (m db)) (k.at db h) }

pub ruleset http_rules = (
  keeps_rules, send_kept, read_json_kept, read_input_kept, current_user_kept,
  require_current_admin_kept, route_uuid_kept, with_http_errors_kept,
)

-- the active user whom the token of the request names
abbrev named_user : Option Claims → Db → Option ApiUser
named_user none db = none
named_user (some c) db = active (find_user_by_id c.sub db)

abbrev pub signed_in_user : Runtime → Request → Db → Option ApiUser
signed_in_user rt r db = named_user (read_auth rt r) db

pub current_user-Refuses :
    (rt : Runtime) (r : Request) (db : Db)
    → signed_in_user rt r db ≡ none
    → Refuses (current_user rt r) db
unfolding current_user ◌>>=◌ or_throw gets
current_user-Refuses rt r db none_in = elim (Option-cases (read_auth rt r)) [
  | inl no_token ↦ record {
    why = http_error 401 "UNAUTHENTICATED" "Sign in is required";
    thrown = rw no_token refl;
  }
  | inr (c, token) ↦
      let inactive : active (find_user_by_id c.sub db) ≡ none = rw token at none_in in
      record {
        why = http_error 401 "UNAUTHENTICATED" "Account is not active";
        thrown = rw (token, inactive) refl;
      }
]

-- For a user who is no administrator, what stands behind the guard is not reached.
pub guarded_kept :
    {A : Type 0} {P : Db → Type 0} (user : ApiUser)
    → is_admin user.role ≡ false
    → (f : Unit {0} → M A) → Keeps P (require_current_admin user >>= f)
unfolding require_current_admin ◌>>=◌ ensure
guarded_kept user operator f = record { at = λ db h. rw operator h }

pub current_user-returns :
    (rt : Runtime) (r : Request) (db : Db) (user : ApiUser)
    → signed_in_user rt r db ≡ some user
    → current_user rt r db ≡ ok user db
unfolding current_user ◌>>=◌ or_throw gets
current_user-returns rt r db user known = elim (Option-cases (read_auth rt r)) [
  | inl no_token ↦ let absent : none ≡ some user = rw no_token at known in cc
  | inr (c, token) ↦
      let found : active (find_user_by_id c.sub db) ≡ some user = rw token at known in
      rw (token, found) refl
]

-- A route whose user is signed in leaves the database alone, if it does so for that user.
pub signed_in-Stays :
    {A : Type 0} (rt : Runtime) (r : Request) (db : Db) (user : ApiUser) (f : ApiUser → M A)
    → signed_in_user rt r db ≡ some user
    → Keeps (λ d. d ≡ db) (f user)
    → after ((current_user rt r >>= f) db) ≡ db
unfolding ◌>>=◌
signed_in-Stays rt r db user f known keeps =
    rw (current_user-returns rt r db user known) (keeps.at db refl)
