-- ===== src/Desktop/Auth.antt =====
-- The sign-in of the desktop application: apps/desktop/src/features/auth/useAuth.ts, with the tokens
-- of apps/desktop/src/lib/api.ts. The API and the Tauri commands answer by the fields of `World`; the
-- keychain of the system, or sessionStorage, is a cell that keeps what is stored in it.
pub mod SignedIn
pub mod Histories
mod Tests
use laap.Base.{
  Bool, List, Option, String, [], false, if◌then◌else◌, is_some, nat_eq, none, not, some, true, ℕ,
  ◌&&◌, ◌++◌, ◌==◌, ◌||◌, ◌∷◌,
}
use laap.Desktop.Action.{
  Act, Cause, attempt, error, finally, gets, modify, ok, pure, throw, thrown, when, ◌>>=◌, ◌>>◌,
}
use laap.Text.{includes, trim}

-- `User` of lib/types.ts
pub record User : Type 0 where
  pub id : String
  pub email : String
  pub display_name : String
  pub is_admin : Bool
  pub status : String

-- the requests and the Tauri commands
pub data Call : Type 0 where
  load_access_token clear_access_token session logout_request : Call
  store_access_token : String → Call
  login_request : String → String → Bool → Call

pub data Answer (A : Type 0) : Type 0 where
  value : A → Answer A
  failed : Cause → Answer A

-- the answer to /api/auth/login
pub record Login : Type 0 where
  pub user : User
  pub access_token : Option String

-- The answers may depend on all the calls so far.
pub record World : Type 0 where
  pub offline_only : Bool
  pub has_tauri : Bool
  pub storage_works : Bool
  pub done : Call → List Call → Answer (Unit {0})
  pub login_of : Call → List Call → Answer Login

-- the state of the hook, `activeToken`, the token that is stored, and the calls made
pub record Auth : Type 0 where
  pub user : Option User
  pub loading : Bool
  pub shown_error : Option String
  pub runtime_token : Option String
  pub stored_token : Option String
  pub calls : List Call

abbrev pub unless_failed : {A : Type 0} → Answer A → Act Auth A
unless_failed (value a) s = ok a s
unless_failed (failed c) s = thrown c s

-- `await`: the call is made, and answered
unfoldable pub await : {A : Type 0} → Call → (Call → List Call → Answer A) → Act Auth A
await c answer s = unless_failed (answer c s.calls) (record s { calls = s.calls ++ c ∷ [] })

abbrev pub set_user : Option User → Act Auth (Unit {0})
set_user u = modify (λ s. record s { user = u })

abbrev pub set_error : Option String → Act Auth (Unit {0})
set_error e = modify (λ s. record s { shown_error = e })

-- `setRuntimeToken`
abbrev pub set_runtime_token : Option String → Act Auth (Unit {0})
set_runtime_token t = modify (λ s. record s { runtime_token = t })

abbrev pub set_stored : Option String → Act Auth (Unit {0})
set_stored t = modify (λ s. record s { stored_token = t })

-- an empty token is none
abbrev present : Option String → Option String
present none = none
present (some t) = if t == "" then none else some t

-- `loadStoredToken`
pub load_stored_token : World → Act Auth (Option String)
load_stored_token w =
    if w.has_tauri
    then attempt (do await Call.load_access_token w.done; gets (λ s. s.stored_token))
        (λ _. pure none)
    else gets (λ s. if w.storage_works then s.stored_token else none)

-- `clear_access_token`, whose failure is passed over
pub forget_token : World → Act Auth (Unit {0})
forget_token w = attempt (do await Call.clear_access_token w.done; set_stored none) (λ _. pure tt)

-- `clearStoredToken`
pub clear_stored_token : World → Act Auth (Unit {0})
clear_stored_token w =
    if w.has_tauri then forget_token w else when w.storage_works (set_stored none)

pub store_natively : World → Option String → Bool → Act Auth (Unit {0})
store_natively w none remember = forget_token w
store_natively w (some t) remember =
    if remember
    then (do await (Call.store_access_token t) w.done; set_stored (some t))
    else forget_token w

-- `storeAuthToken`
pub store_auth_token : World → Option String → Bool → Act Auth (Unit {0})
store_auth_token w token remember =
    if w.has_tauri
    then store_natively w (present token) remember
    else when w.storage_works (set_stored (if remember then none else present token))

-- the answer to /api/auth/session
pub adopt : World → Option User → Act Auth (Unit {0})
adopt w (some u) = set_user (some u)
adopt w none = do set_user none; set_runtime_token none; clear_stored_token w

-- the server has refused the token
abbrev pub is_denied : Option ℕ → Bool
is_denied none = false
is_denied (some status) = nat_eq status 401 || nat_eq status 403

-- the catch of `checkSession`
pub session_failed : World → Cause → Act Auth (Unit {0})
session_failed w cause = do
  set_user none
  if is_denied cause.status
      then (set_runtime_token none >> clear_stored_token w)
      else set_error (some "Cloud connection unavailable. Your saved sign-in has been preserved.")

-- with a token, the request is sent
ask_with : Option String → Act Auth Bool
ask_with none = do set_user none; pure false
ask_with (some t) = do
  set_runtime_token (some t)
  modify (λ s. record s { calls = s.calls ++ Call.session ∷ [] })
  pure true

-- `checkSession` as far as the request to /api/auth/session: whether it was sent
pub ask_session : World → Act Auth Bool
ask_session w =
    if w.offline_only then pure false else do t ← load_stored_token w; ask_with (present t)

-- `checkSession` from the answer on; anything may have happened in between
pub answer_session : World → Answer (Option User) → Act Auth (Unit {0})
answer_session w a = attempt (unless_failed a >>= adopt w) (session_failed w)

-- from the answer to the request on
pub establish : World → Bool → User → Option String → Act Auth User
establish w remember u none =
    throw
      (error "Desktop sign-in session could not be established. Please update LAAP and try again.")
establish w remember u (some t) = do
  set_runtime_token (some t)
  set_user (some u)
  if remember then store_auth_token w (some t) true else store_auth_token w none false
  pure u

-- the message that is shown
abbrev friendly : String → String
friendly message =
    if includes "INVALID_LOGIN" message then "Incorrect email or password." else message

-- the catch of `login`
pub refuse : World → Cause → Act Auth User
refuse w cause = do
  set_runtime_token none
  clear_stored_token w
  set_error (some (friendly cause.message))
  throw (error (friendly cause.message))

-- `login`
pub login : World → String → String → Bool → Act Auth User
login w email password remember = do
  modify (λ s. record s { loading = true; shown_error = none })
  finally
      (attempt
        (do
          r ← await (Call.login_request (trim email) password remember) w.login_of
          establish w remember r.user (present r.access_token))
        (refuse w))
      (modify (λ s. record s { loading = false }))

-- `logout`, after 'laap:logout' is dispatched
pub logout : World → Act Auth (Unit {0})
logout w =
    finally (attempt (await Call.logout_request w.done) (λ _. pure tt))
      (do set_runtime_token none; clear_stored_token w; set_user none; set_error none)
