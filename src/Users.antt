-- ===== src/Users.antt =====
-- SqliteAuthService (apps/api/src/services/sqlite/auth.service.ts): the users and their passwords.
pub mod Backed
pub mod HasAdmin
pub mod LastAdmin
pub mod Deactivated
pub mod Statements
mod Tests
use mathlib.Core.Option
use laap.Base.{
  Bool, List, Option, String, [], false, get_or, if◌then◌else◌, is_some, length, ltb, none, not,
  some, ℕ, ◌&&◌, ◌==◌, ◌||◌, ◌∷◌,
}
use laap.Audit.{add_audit}
use laap.Base.Rows.{count_where, find_where, select_where}
use laap.Db.{Moment, insert_user, update_users}
use laap.Db.Queries.{user_by_id}
use laap.Exec.{
  Failure, M, ensure, for_each, gets, or_throw, pure, service, service_error, transaction, when,
  ◌>>=◌, ◌>>◌,
}
use laap.Leases.{close_session}
use laap.Schema.{Db, Session, User, str, strs}
use laap.Types.{
  ApiUser, ReleaseReason, SessionStatus, UserRole, UserStatus, is_active_user, is_admin, is_live,
}

-- What the service takes from SQLite, JavaScript and bcryptjs about texts: `lower(…)`,
-- `toLowerCase()`, `bcrypt.hash` and `bcrypt.compare`.
pub record Texts : Type 0 where
  pub sql_lower : String → String
  pub to_lower : String → String
  pub hash : String → String
  pub compare : String → String → Bool

-- `publicUser` of apps/api/src/services/sqlite/shared.ts
abbrev pub public_user : User → ApiUser
public_user u = record {
  id = u.id;
  email = u.email;
  display_name = u.display_name;
  role = u.role;
  status = u.status;
}

-- … WHERE lower(email) = lower(?)
pub find_user_by_email : Texts → String → Db → Option User
find_user_by_email t email db = find_where (λ u. t.sql_lower u.email == t.sql_lower email) db.users

unfoldable pub find_user_by_id : String → Db → Option ApiUser
find_user_by_id id db = Option.map public_user (user_by_id id db)

-- `!user || user.status !== 'active' || !(await bcrypt.compare(…))`
abbrev pub accepts : Texts → String → Option User → Option User
accepts t password none = none
accepts t password (some u) =
    if is_active_user u.status && t.compare password u.password_hash then some u else none

abbrev pub invalid_credentials : Failure
invalid_credentials = service (record {
  code = "INVALID_CREDENTIALS";
  status = 401;
  message = "Email or password is incorrect";
})

pub authenticate : Texts → String → String → M ApiUser
authenticate t email password = do
  found ← gets (find_user_by_email t email)
  user ← or_throw (accepts t password found) invalid_credentials
  pure (public_user user)

-- the fields of `userCreateSchema`
pub record UserInput : Type 0 where
  pub email : String
  pub display_name : String
  pub password : String
  pub role : UserRole

abbrev pub role_text : UserRole → String
role_text UserRole.admin = "admin"
role_text UserRole.operator = "operator"

abbrev pub new_user : Texts → Moment → UserInput → User
new_user t m input = record {
  id = m.uuid;
  email = t.to_lower input.email;
  password_hash = t.hash input.password;
  display_name = input.display_name;
  role = input.role;
  status = UserStatus.active;
  created_at = m.now;
  updated_at = m.now;
}

abbrev pub user_exists : Failure
user_exists = service (record {
  code = "USER_EXISTS";
  status = 409;
  message = "A user with this email already exists";
})

-- `createUser` up to its `await`, during which other requests run
pub check_new_user : Texts → UserInput → M (Unit {0})
check_new_user t input = do
  found ← gets (find_user_by_email t input.email)
  ensure (not (is_some found)) user_exists

-- `createUser` from its `await` on
pub commit_new_user : Texts → Moment → String → UserInput → M ApiUser
commit_new_user t m actor_id input = do
  transaction (do
    insert_user (new_user t m input)
    add_audit m actor_id "USER_CREATED" "users" m.uuid
        (("email", str (t.to_lower input.email)) ∷ ("role", str (role_text input.role)) ∷ []))
  pure (public_user (new_user t m input))

pub create_user : Texts → Moment → String → UserInput → M ApiUser
create_user t m actor_id input = do check_new_user t input; commit_new_user t m actor_id input

-- the fields of `userUpdateSchema`; `none` for undefined
pub record UserPatch : Type 0 where
  pub display_name : Option String
  pub role : Option UserRole
  pub status : Option UserStatus

-- `input.status && input.status !== 'active'`
abbrev pub deactivates : Option UserStatus → Bool
deactivates none = false
deactivates (some status) = not (is_active_user status)

-- `input.role === 'operator'`
abbrev pub demotes : Option UserRole → Bool
demotes none = false
demotes (some role) = not (is_admin role)

abbrev pub is_active_admin : User → Bool
is_active_admin u = is_admin u.role && is_active_user u.status

-- SELECT COUNT(*) … WHERE role = 'admin' AND status = 'active'
pub active_admins : Db → ℕ
active_admins db = count_where is_active_admin db.users

abbrev named : {A : Type 0} → String → Option A → List String → List String
named key none rest = rest
named key (some a) rest = key ∷ rest

abbrev pub updated_fields : UserPatch → List String
updated_fields input =
    named "display_name" input.display_name
      (named "role" input.role (named "status" input.status []))

abbrev pub updated : ℕ → UserPatch → User → User
updated now input u = record u {
  display_name = get_or input.display_name u.display_name;
  role = get_or input.role u.role;
  status = get_or input.status u.status;
  updated_at = now;
}

-- … WHERE user_id = ? AND status IN ('starting', 'active', 'stopping')
abbrev pub live_of_user : String → Session → Bool
live_of_user user_id s = s.user_id == user_id && is_live s.status

end_deactivated : Moment → String → Session → M (Unit {0})
end_deactivated m actor_id s = do
  close_session m.now SessionStatus.ended ReleaseReason.error s.id
  add_audit m actor_id "SESSION_ENDED" "account_sessions" s.id
      (("accountId", str s.account_id) ∷ ("releaseReason", str "user_deactivated") ∷ [])

-- an active administrator is about to stop being one
pub guard_last_admin : Bool → M (Unit {0})
guard_last_admin leaving = when leaving (do
  admins ← gets active_admins
  ensure (ltb 1 admins) (service_error "LAST_ADMIN_REQUIRED" 409))

pub write_user : Moment → String → UserPatch → M (Unit {0})
write_user m user_id input =
    when (ltb 0 (length (updated_fields input)))
      (update_users (λ u. u.id == user_id) (updated m.now input))

pub end_sessions : Moment → String → String → M (Unit {0})
end_sessions m actor_id user_id = do
  sessions ← gets (λ db. select_where (live_of_user user_id) db.sessions)
  for_each sessions (end_deactivated m actor_id)

pub update_user : Moment → String → String → UserPatch → M (Option ApiUser)
update_user m actor_id user_id input = transaction (do
  found ← gets (user_by_id user_id)
  current ← or_throw found (service_error "USER_NOT_FOUND" 404)
  ensure (not (actor_id == user_id && deactivates input.status)) (service_error "SELF_LOCKOUT" 409)
  guard_last_admin (is_active_admin current && (demotes input.role || deactivates input.status))
  write_user m user_id input
  when (deactivates input.status) (end_sessions m actor_id user_id)
  add_audit m actor_id "USER_UPDATED" "users" user_id (("fields", strs (updated_fields input)) ∷ [])
  gets (find_user_by_id user_id))

-- `resetUserPassword` from its `await` on: two statements with no transaction around them
pub commit_reset : Texts → Moment → String → String → String → M (Unit {0})
commit_reset t m actor_id user_id password = do
  update_users (λ u. u.id == user_id)
      (λ u. record u { password_hash = t.hash password; updated_at = m.now })
  add_audit m actor_id "USER_PASSWORD_RESET" "users" user_id []

unfoldable pub reset_user_password : Texts → Moment → String → String → String → M (Unit {0})
reset_user_password t m actor_id user_id password = do
  found ← gets (user_by_id user_id)
  ensure (is_some found) (service_error "USER_NOT_FOUND" 404)
  commit_reset t m actor_id user_id password
