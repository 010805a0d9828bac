-- ===== src/Desktop/Auth/Histories.antt =====
-- Histories of the hook `useAuth`: the halves of `checkSession`, `login` and `logout`, one after another.
-- `login` and `logout` are each finished before the next event; between the halves of a session check
-- anything may happen.
use laap.Base.{
  arith, All, Bool, List, Option, String, [], false, inl, inr, is_some, none, not, refl, some, suc,
  true, zero, ℕ, ◌∷◌, ◌≡◌, ◌⊎◌,
}
use laap.Desktop.Action.{Act, Result, continue, gets, left, ok, pure, thrown, when, ◌>>=◌, ◌>>◌}
use laap.Desktop.Auth.{Answer, Auth, User, World, answer_session, ask_session, login, logout}
use laap.Desktop.Auth.SignedIn.{
  Asked, SignedIn, Stores, answer_session-SignedIn, ask_session-Asked, login-SignedIn,
  logout-SignedIn,
}

-- the hook, and the session checks that wait for their answer
pub record App : Type 0 where
  pub auth : Auth
  pub pending : ℕ

pub data Event : Type 0 where
  ask sign_out : Event
  answer : Answer (Option User) → Event
  sign_in : String → String → Bool → Event

abbrev counted : ℕ → Result Auth Bool → App
counted n (ok true s) = record { auth = s; pending = suc n }
counted n (ok false s) = record { auth = s; pending = n }
counted n (thrown c s) = record { auth = s; pending = n }

abbrev answered : World → Answer (Option User) → ℕ → Auth → App
answered w a zero s = record { auth = s; pending = zero }
answered w a (suc n) s = record { auth = left (answer_session w a s); pending = n }

-- `if (!user)` of TeamVaultView.tsx: the form to sign in is shown only where nobody is signed in
unfoldable pub submit : World → String → String → Bool → Act Auth (Unit {0})
submit w email password remember = do
  u ← gets (λ s. s.user)
  when (not (is_some u)) (login w email password remember >> pure tt)

unfoldable pub perform : World → Event → App → App
perform w ask a = counted a.pending (ask_session w a.auth)
perform w (answer x) a = answered w x a.pending a.auth
perform w sign_out a = record a { auth = left (logout w a.auth) }
perform w (sign_in email password remember) a = record a {
  auth = left (submit w email password remember a.auth);
}

-- each event with the world it meets
unfoldable pub run : List (World × Event) → App → App
run [] a = a
run ((w, e) ∷ events) a = run events (perform w e a)

-- the event does not come between the halves of a session check
abbrev pub Apart : Event → App → Type 0
Apart (answer x) a = Unit
Apart _ a = a.pending ≡ 0

abbrev pub AllApart : List (World × Event) → App → Type 0
AllApart [] a = Unit
AllApart ((w, e) ∷ events) a = Apart e a × AllApart events (perform w e a)

-- with at most one check pending, and then a token
abbrev Sound : App → Type 0
Sound a =
    SignedIn a.auth × ((a.pending ≡ 0) ⊎ ((a.pending ≡ 1) × (is_some a.auth.runtime_token ≡ true)))

counted-Sound : (n : ℕ) (r : Result Auth Bool) → n ≡ 0 → Asked r → Sound (counted n r)
unfolding SignedIn
counted-Sound n (ok true s) e h = (inr h, inr (rw e refl, h))
counted-Sound n (ok false s) e h = (h, inl e)
counted-Sound n (thrown c s) e h = absurd h

login_tail : (r : Result Auth User) → SignedIn (left r) → SignedIn (left (continue r λ _. pure tt))
unfolding pure SignedIn
login_tail (ok u s) h = h
login_tail (thrown c s) h = h

signs_in :
    (w : World) (email password : String) (remember : Bool) (u : Option User) (s : Auth)
    → s.user ≡ u
    → Stores w
    → SignedIn s
    → SignedIn (left (when (not (is_some u)) (login w email password remember >> pure tt) s))
unfolding when ◌>>=◌
signs_in w email password remember (some u) s e k h = h
signs_in w email password remember none s e k h =
    login_tail (login w email password remember s) (login-SignedIn w email password remember s k e)

answered-Sound :
    (w : World) (x : Answer (Option User)) (n : ℕ) (s : Auth)
    → SignedIn s
    → (n ≡ 0) ⊎ ((n ≡ 1) × (is_some s.runtime_token ≡ true))
    → Sound (answered w x n s)
answered-Sound w x zero s h p = (h, inl refl)
answered-Sound w x (suc n) s h (inl e) = absurd (omega arith)
answered-Sound w x (suc n) s h (inr (e, token)) =
    (answer_session-SignedIn w x s token, inl (omega arith))

perform-Sound :
    (w : World) (e : Event) (a : App) → Stores w → Apart e a → Sound a → Sound (perform w e a)
unfolding perform submit gets ◌>>=◌
perform-Sound w ask a k apart h =
    counted-Sound a.pending (ask_session w a.auth) apart (ask_session-Asked w a.auth h.0)
perform-Sound w (answer x) a k apart h = answered-Sound w x a.pending a.auth h.0 h.1
perform-Sound w sign_out a k apart h = (logout-SignedIn w a.auth, inl apart)
perform-Sound w (sign_in email password remember) a k apart h =
    (signs_in w email password remember a.auth.user a.auth refl k h.0, inl apart)

run-Sound :
    (events : List (World × Event)) (a : App)
    → All (λ e. Stores e.0) events
    → AllApart events a
    → Sound a
    → Sound (run events a)
unfolding run
run-Sound [] a k apart h = h
run-Sound ((w, e) ∷ events) a k apart h =
    run-Sound events (perform w e a) k.1 apart.1 (perform-Sound w e a k.0 apart.0 h)

-- From a state in which no session check is pending, and nobody is shown as signed in without a token for
-- the requests: after any events of which none but an answer comes while a check waits for its
-- answer, each sign-in and sign-out finished before the next event, whatever the API answers and
-- whichever command fails but that of the keychain to store, a user is shown as signed in only while
-- the requests carry a token. The form to sign in is there only where nobody is signed in.
pub run-SignedIn :
    (events : List (World × Event)) (a : App)
    → All (λ e. Stores e.0) events
    → AllApart events a
    → a.pending ≡ 0
    → SignedIn a.auth
    → SignedIn (run events a).auth
run-SignedIn events a k apart none_pending h = (run-Sound events a k apart (h, inl none_pending)).0
