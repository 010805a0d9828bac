-- ===== src/Desktop/Auth/SignedIn.antt =====
-- Who is signed in: the token that goes with the user, over `checkSession`, `login` and `logout`.
use laap.Base.{
  Bool-cases, ◌∷◌, [], List, String, Option, Bool, none, some, is_some, true, false, refl, ◌≡◌, ◌⊎◌,
  inl, inr, ◌++◌, if◌then◌else◌,
}
use laap.Desktop.Action.{
  Act, Cause, Result, attempt, continue, finally, gets, left, modify, ok, pure, rescue, settle,
  throw, thrown, when, ◌>>=◌,
}
use laap.Desktop.Action.Holds.{rescue-left, left-finally}
use laap.Text.{trim}
use laap.Desktop.Auth.{
  Auth, Call, World, Answer, Login, User, adopt, await, ask_session, answer_session, ask_with,
  clear_stored_token, establish, failed, value, forget_token, is_denied, load_stored_token, login,
  logout, refuse, session_failed, store_auth_token, store_natively, unless_failed, present,
}

-- no user, or a token for the requests
unfoldable pub SignedIn : Auth → Type 0
SignedIn s = (s.user ≡ none) ⊎ (is_some s.runtime_token ≡ true)

abbrev Same : Auth → Auth → Type 0
Same s t = (t.user ≡ s.user) × (t.runtime_token ≡ s.runtime_token)

-- the action returns, and leaves the user and the token of the requests
abbrev Returns : {A : Type 0} → Act Auth A → Auth → Type 0
Returns {A} m s = (a : A) × (t : Auth) × (m s ≡ ok a t) × Same s t

swallowed :
    (a : Answer (Unit {0})) (s : Auth) (f : Auth → Auth)
    → Same s (f s)
    → (t : Auth) × (rescue (continue (unless_failed a s) λ _ u. ok tt (f u)) (λ c u. ok tt u)
        ≡ ok tt t)
      × Same s t
swallowed (value a) s f k = (f s, refl, k)
swallowed (failed c) s f k = (s, refl, (refl, refl))

forget_token-Returns : (w : World) (s : Auth) → Returns (forget_token w) s
unfolding forget_token await modify pure attempt ◌>>=◌
forget_token-Returns w s =
    let (t, e, k) =
      swallowed (w.done Call.clear_access_token s.calls)
        (record s { calls = s.calls ++ Call.clear_access_token ∷ [] })
        (λ u. record u { stored_token = none }) (refl, refl) in
    (tt, t, e, k)

-- assignments that leave the user and the token of the requests
assign-Returns : (f : Auth → Auth) (s : Auth) → Same s (f s) → Returns (modify f) s
unfolding modify
assign-Returns f s k = (tt, f s, refl, k)

Returns-if :
    {A : Type 0} (b : Bool) (m n : Act Auth A) (s : Auth)
    → Returns m s
    → Returns n s
    → Returns (if b then m else n) s
Returns-if true m n s h k = h
Returns-if false m n s h k = k

Returns-when : (b : Bool) (m : Act Auth (Unit {0})) (s : Auth) → Returns m s → Returns (when b m) s
unfolding when
Returns-when true m s h = h
Returns-when false m s h = (tt, s, refl, (refl, refl))

clear_stored_token-Returns : (w : World) (s : Auth) → Returns (clear_stored_token w) s
unfolding clear_stored_token
clear_stored_token-Returns w s =
    Returns-if w.has_tauri _ _ s (forget_token-Returns w s)
      (Returns-when w.storage_works _ s (assign-Returns _ s (refl, refl)))

loaded :
    (a : Answer (Unit {0})) (s : Auth)
    → (x : Option String) × (t : Auth) × (rescue
          (continue (unless_failed a s) λ _ u. ok u.stored_token u)
          (λ c u. ok none u)
        ≡ ok x t)
      × Same s t
loaded (value a) s = (s.stored_token, s, refl, (refl, refl))
loaded (failed c) s = (none, s, refl, (refl, refl))

load_stored_token-Returns : (w : World) (s : Auth) → Returns (load_stored_token w) s
unfolding load_stored_token await attempt gets pure ◌>>=◌
load_stored_token-Returns w s =
    Returns-if w.has_tauri _ _ s (loaded (w.done Call.load_access_token s.calls) _)
      ((_, s, refl, (refl, refl)))

-- the keychain stores what it is given
abbrev pub Stores : World → Type 0
Stores w = (t : String) (calls : List Call) → w.done (Call.store_access_token t) calls ≡ value tt

store_natively-Returns :
    (w : World) (token : Option String) (remember : Bool) (s : Auth)
    → Stores w
    → Returns (store_natively w token remember) s
unfolding store_natively await modify ◌>>=◌
store_natively-Returns w none remember s k = forget_token-Returns w s
store_natively-Returns w (some t) true s k = rw (k t s.calls) (tt, _, refl, (refl, refl))
store_natively-Returns w (some t) false s k = forget_token-Returns w s

store_auth_token-Returns :
    (w : World) (token : Option String) (remember : Bool) (s : Auth)
    → Stores w
    → Returns (store_auth_token w token remember) s
unfolding store_auth_token
store_auth_token-Returns w token remember s k =
    Returns-if w.has_tauri _ _ s (store_natively-Returns w (present token) remember s k)
      (Returns-when w.storage_works _ s (assign-Returns _ s (refl, refl)))

-- what goes on after an action that returns
after_return :
    {A B : Type 0} (Q : Result Auth B → Type 0) (m : Act Auth A) (f : A → Act Auth B) (s : Auth)
    → Returns m s
    → ((a : A) (t : Auth) → Same s t → Q (f a t))
    → Q ((m >>= f) s)
unfolding ◌>>=◌
after_return Q m f s (a, t, e, k) h = rw e (h a t k)

-- no user is signed in
abbrev pub NoUser : Auth → Type 0
NoUser s = s.user ≡ none

clear-NoUser : (w : World) (s : Auth) → NoUser s → NoUser (left (clear_stored_token w s))
clear-NoUser w s h = let (a, t, e, k) = clear_stored_token-Returns w s in rw (e, k.0) h

session_failed-NoUser : (w : World) (c : Cause) (s : Auth) → NoUser (left (session_failed w c s))
unfolding session_failed modify ◌>>=◌
session_failed-NoUser w c s = elim (Bool-cases (is_denied c.status)) [
  | inl denied ↦ rw denied (clear-NoUser w _ refl)
  | inr other ↦ rw other refl
]

adopt-SignedIn :
    (w : World) (u : Option User) (s : Auth)
    → is_some s.runtime_token ≡ true
    → SignedIn (left (adopt w u s))
unfolding adopt modify ◌>>=◌ SignedIn
adopt-SignedIn w none s h = inl (clear-NoUser w _ refl)
adopt-SignedIn w (some u) s h = inr h

pub answer_session-SignedIn :
    (w : World) (a : Answer (Option User)) (s : Auth)
    → is_some s.runtime_token ≡ true
    → SignedIn (left (answer_session w a s))
unfolding answer_session attempt ◌>>=◌ SignedIn
answer_session-SignedIn w (failed c) s h = inl (session_failed-NoUser w c s)
answer_session-SignedIn w (value u) s h =
    rescue-left SignedIn (adopt w u s) (session_failed w) (adopt-SignedIn w u s h)
      λ c t. inl (session_failed-NoUser w c t)

-- a request is sent only with a token
abbrev pub Asked : Result Auth Bool → Type 0
Asked (ok true s) = is_some s.runtime_token ≡ true
Asked (ok false s) = SignedIn s
Asked (thrown c s) = ⊥

ask_with-Asked : (t : Option String) (s : Auth) → Asked (ask_with t s)
unfolding ask_with modify pure ◌>>=◌ SignedIn
ask_with-Asked none s = inl refl
ask_with-Asked (some t) s = refl

Asked-if :
    (b : Bool) (m n : Act Auth Bool) (s : Auth)
    → Asked (m s)
    → Asked (n s)
    → Asked ((if b then m else n) s)
Asked-if true m n s h k = h
Asked-if false m n s h k = k

pub ask_session-Asked : (w : World) (s : Auth) → SignedIn s → Asked (ask_session w s)
unfolding ask_session pure
ask_session-Asked w s h =
    Asked-if w.offline_only _ _ s h (
      after_return Asked _ _ s (load_stored_token-Returns w s)
        λ t u k. ask_with-Asked (present t) u)

-- what `login` has made before its catch: a user with a token, or nothing
abbrev Settled : Result Auth User → Type 0
Settled (ok u s) = is_some s.runtime_token ≡ true
Settled (thrown c s) = NoUser s

establish-Settled :
    (w : World) (remember : Bool) (u : User) (t : Option String) (s : Auth)
    → Stores w
    → NoUser s
    → Settled (establish w remember u t s)
unfolding establish modify throw pure ◌>>=◌
establish-Settled w remember u none s k h = h
establish-Settled w true u (some t) s k h =
    let (a, v, e, same) =
      store_auth_token-Returns w (some t) true (record s { runtime_token = some t; user = some u })
        k in
    rw e (rw same.1 refl)
establish-Settled w false u (some t) s k h =
    let (a, v, e, same) =
      store_auth_token-Returns w none false (record s { runtime_token = some t; user = some u })
        k in
    rw e (rw same.1 refl)

refuse-NoUser : (w : World) (c : Cause) (s : Auth) → NoUser s → NoUser (left (refuse w c s))
unfolding refuse modify throw ◌>>=◌
refuse-NoUser w c s h =
    let (a, v, e, same) = clear_stored_token-Returns w (record s { runtime_token = none }) in
    rw e (rw same.0 h)

refused-SignedIn :
    (w : World) (r : Result Auth User) → Settled r → SignedIn (left (rescue r (refuse w)))
unfolding SignedIn
refused-SignedIn w (ok u s) h = inr h
refused-SignedIn w (thrown c s) h = inl (refuse-NoUser w c s h)

login_answered :
    (w : World) (remember : Bool) (a : Answer Login) (s : Auth)
    → Stores w
    → NoUser s
    → Settled
        (continue (unless_failed a s) λ r. establish w remember r.user (present r.access_token))
login_answered w remember (value r) s k h =
    establish-Settled w remember r.user (present r.access_token) s k h
login_answered w remember (failed c) s k h = h

not_loading-SignedIn :
    (r : Result Auth User)
    → SignedIn (left r)
    → SignedIn (left (settle r (modify (λ s. record s { loading = false }))))
unfolding modify SignedIn
not_loading-SignedIn (ok u s) h = h
not_loading-SignedIn (thrown c s) h = h

pub login-SignedIn :
    (w : World) (email password : String) (remember : Bool) (s : Auth)
    → Stores w
    → NoUser s
    → SignedIn (left (login w email password remember s))
unfolding login await attempt finally modify ◌>>=◌
login-SignedIn w email password remember s k h =
    let c = Call.login_request (trim email) password remember in
    let a = w.login_of c s.calls in
    let t = record s { loading = true; shown_error = none; calls = s.calls ++ c ∷ [] } in
    let r =
      continue (unless_failed a t) λ r. establish w remember r.user (present r.access_token) in
    not_loading-SignedIn (rescue r (refuse w))
      (refused-SignedIn w r (login_answered w remember a t k h))

pub logout-SignedIn : (w : World) (s : Auth) → SignedIn (left (logout w s))
unfolding logout modify ◌>>=◌ SignedIn
logout-SignedIn w s = left-finally SignedIn _ _ s λ t.
    let (a, v, e, same) = clear_stored_token-Returns w (record t { runtime_token = none }) in
    rw e (inl refl)
