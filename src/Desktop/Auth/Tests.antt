-- ===== src/Desktop/Auth/Tests.antt =====
-- Sign-in on concrete answers.
use laap.Base.{◌==◌, if◌then◌else◌, List, [], ◌∷◌, none, some, true, false, refl, ◌≡◌, inl}
use laap.Desktop.Action.{left, error, ◌>>=◌, modify, attempt, finally, gets, pure, throw, when}
use laap.Desktop.Auth.{
  Auth, Call, World, Answer, Login, User, value, failed, login, await, establish, refuse,
  store_auth_token, store_natively, ask_session, answer_session, ask_with, logout,
  load_stored_token, adopt, clear_stored_token, forget_token,
}
use laap.Desktop.Auth.Histories.{AllApart, App, Event, perform, run, run-SignedIn, submit}
use laap.Desktop.Auth.SignedIn.{SignedIn, Stores}

abbrev ada : User
ada = record {
  id = "u1";
  email = "ada@laap.dev";
  display_name = "Ada";
  is_admin = false;
  status = "active";
}

-- a keychain that works, and an API that takes the password "secret"
abbrev checks : Call → List Call → Answer Login
checks (Call.login_request email password remember) calls =
    if password == "secret"
    then value (record { user = ada; access_token = some "token" })
    else failed (error "Email or password is incorrect")
checks c calls = failed (error "not found")

abbrev online : World
online = record {
  offline_only = false;
  has_tauri = true;
  storage_works = true;
  done = λ c calls. value tt;
  login_of = checks;
}

-- a keychain that stores nothing
abbrev refuses : Call → List Call → Answer (Unit {0})
refuses (Call.store_access_token t) calls = failed (error "keychain locked")
refuses c calls = value tt

abbrev locked : World
locked = record online { done = refuses }

abbrev at_start : Auth
at_start = record {
  user = none;
  loading = false;
  shown_error = none;
  runtime_token = none;
  stored_token = none;
  calls = [];
}

abbrev opened : App
opened = record { auth = at_start; pending = 0 }

abbrev day : List (World × Event)
day =
    (online, Event.ask)
    ∷ (online, Event.sign_in " ada@laap.dev " "secret" true)
    ∷ (online, Event.ask)
    ∷ (online, Event.answer (value (some ada)))
    ∷ (online, Event.sign_out)
    ∷ []

stores : Stores online
stores t calls = refl

at_start-SignedIn : SignedIn at_start
unfolding SignedIn
at_start-SignedIn = inl refl

day-AllApart : AllApart day opened
unfolding perform submit login gets when ask_session answer_session load_stored_token ask_with adopt
    ◌>>=◌ modify attempt finally pure throw await establish refuse store_auth_token store_natively
    clear_stored_token forget_token
day-AllApart = (refl, (refl, (refl, (tt, (refl, tt)))))

run-SignedIn_example : SignedIn (run day opened).auth
run-SignedIn_example =
    run-SignedIn day opened (stores, (stores, (stores, (stores, (stores, tt))))) day-AllApart refl
      at_start-SignedIn

-- A session check that is answered after the user has signed out: the user is shown again, and the
-- requests carry no token.
abbrev overtaken : List (World × Event)
overtaken =
    (online, Event.sign_in " ada@laap.dev " "secret" true)
    ∷ (online, Event.ask)
    ∷ (online, Event.sign_out)
    ∷ (online, Event.answer (value (some ada)))
    ∷ []

overtaken_user :
    ((run overtaken opened).auth.user ≡ some ada)
    × ((run overtaken opened).auth.runtime_token ≡ none)
unfolding run perform submit login gets when ask_session answer_session load_stored_token ask_with
    adopt ◌>>=◌ modify attempt finally pure throw await establish refuse store_auth_token
    store_natively clear_stored_token forget_token logout
overtaken_user = (refl, refl)

-- a keychain that stores nothing leaves the user signed in without a token
unstored_user : (left (login locked "ada@laap.dev" "secret" true at_start)).user ≡ some ada
unfolding login ◌>>=◌ modify attempt finally pure throw await establish refuse store_auth_token
    store_natively clear_stored_token forget_token
unstored_user = refl

unstored_token : (left (login locked "ada@laap.dev" "secret" true at_start)).runtime_token ≡ none
unfolding login ◌>>=◌ modify attempt finally pure throw await establish refuse store_auth_token
    store_natively clear_stored_token forget_token
unstored_token = refl
