-- ===== src/Service/WellFormed.antt =====
-- The constraints of the schema hold after any history.
use laap.Base.{
  sym, and-true, ◌∙◌, eq_iff, true, ◌&&◌, ◌≡◌, ◌==◌, String, Bool, List, Bool-cases, arith, false,
  inl, inr, refl, ◌||◌, ◌∷◌, [], ◌≤◌,
}
use laap.Base.Rows.{count_where, distinct_by, exists_where}
use laap.Types.{SessionStatus, is_live}
use laap.Schema.{User, sessions_ok, users_ok, sessions_clash, Session, Db}
use laap.Base.Rows.{count_where, distinct_by, exists_where}
use laap.Types.{SessionStatus, is_live}
use laap.Schema.{User, sessions_ok, users_ok}
use laap.Db.{Moment}
use laap.Db.WellFormed.{WellFormed, update_users-WellFormed}
use laap.Service.{Call, Config, perform, run}
use laap.Service.Statements.{perform-Keeps, run-Keeps}
use laap.Statements.WellFormed.{WellFormed-statements}
use laap.Users.Statements.{commit_reset-Keeps, update_user-Keeps}

pub perform-WellFormed :
    (c : Config) (m : Moment) (call : Call) (db : Db)
    → WellFormed db
    → WellFormed (perform c m call db)
perform-WellFormed =
    perform-Keeps WellFormed-statements
      (update_user-Keeps WellFormed-statements update_users-WellFormed)
      (commit_reset-Keeps WellFormed-statements update_users-WellFormed)

pub run-WellFormed :
    (c : Config) (db : Db) (calls : List (Moment × Call))
    → WellFormed db
    → WellFormed (run c db calls)
run-WellFormed =
    run-Keeps WellFormed-statements
      (update_user-Keeps WellFormed-statements update_users-WellFormed)
      (commit_reset-Keeps WellFormed-statements update_users-WellFormed)

module _ {A : Type 0} (clash : A → A → Bool) (p : A → Bool) where
  none_more :
      (x : A)
      → ((y : A) → p y ≡ true → clash x y ≡ true)
      → (xs : List A) → exists_where (clash x) xs ≡ false
      → count_where p xs ≡ 0
  unfolding exists_where count_where
  none_more x k [] h = refl
  none_more x k (y ∷ xs) h = ground (arith, none_more x k xs, k y)

  -- where any two rows that meet the clause clash
  at_most_one :
      ((x y : A) → p x ≡ true → p y ≡ true → clash x y ≡ true)
      → (xs : List A) → distinct_by clash xs ≡ true
      → count_where p xs ≤ 1
  unfolding distinct_by count_where
  at_most_one k [] h = omega arith
  at_most_one k (x ∷ xs) h = elim (Bool-cases (p x)) [
    | inl hit ↦
        let rest = none_more x (λ y q. k x y hit q) xs in
        let others = at_most_one k xs in ground (arith, rest)
    | inr miss ↦ let others = at_most_one k xs in ground (arith, others)
  ]

-- a status under which the account is taken
abbrev pub takes : SessionStatus → Bool
takes SessionStatus.starting = true
takes SessionStatus.active = true
takes SessionStatus.stopping = true
takes SessionStatus.ended = false
takes SessionStatus.stale = false
takes SessionStatus.error = false

takes-is_live : (x : SessionStatus) → takes x ≡ true → is_live x ≡ true
takes-is_live SessionStatus.starting h = refl
takes-is_live SessionStatus.active h = refl
takes-is_live SessionStatus.stopping h = refl
takes-is_live SessionStatus.ended h = cc
takes-is_live SessionStatus.stale h = cc
takes-is_live SessionStatus.error h = cc

or_true : (b : Bool) → (b || true) ≡ true
or_true b = ground arith

same_key : (a b k : String) → (a == k) ≡ true → (b == k) ≡ true → (a == b) ≡ true
same_key a b k p q = (eq_iff a b).1 ((eq_iff a k).0 p ∙ sym ((eq_iff b k).0 q))

two_sessions :
    (account_id : String) (s t : Session)
    → (s.account_id == account_id && takes s.status) ≡ true
    → (t.account_id == account_id && takes t.status) ≡ true
    → sessions_clash s t ≡ true
two_sessions account_id s t p q =
    let (on_s, live_s) = and-true _ _ p in
    let (on_t, live_t) = and-true _ _ q in
    let same = same_key s.account_id t.account_id account_id on_s on_t in
    let held = takes-is_live s.status live_s in
    let held' = takes-is_live t.status live_t in rw (held, held', same) (or_true _)

two_users :
    (email : String) (u v : User)
    → (u.email == email) ≡ true
    → (v.email == email) ≡ true
    → (u.id == v.id || u.email == v.email) ≡ true
two_users email u v p q = let same = same_key u.email v.email email p q in rw same (or_true _)

-- After any history of calls that starts within the constraints of the schema, interleaved in any way: of the
-- rows of one account at most one has the status 'starting', 'active' or 'stopping', and at most one user
-- has any one e-mail.
pub run-one_session :
    (c : Config) (db : Db) (calls : List (Moment × Call)) (account_id email : String)
    → WellFormed db
    → (count_where (λ s. s.account_id == account_id && takes s.status) (run c db calls).sessions
        ≤ 1)
      × (count_where (λ u. u.email == email) (run c db calls).users ≤ 1)
unfolding sessions_ok users_ok
run-one_session c db calls account_id email h =
    let w = run-WellFormed c db calls h in
    (
      at_most_one sessions_clash (λ s. s.account_id == account_id && takes s.status)
          (two_sessions account_id) _ (and-true _ _ w.sessions).0,
      at_most_one (λ u v. u.id == v.id || u.email == v.email) (λ u. u.email == email)
          (two_users email) _ w.users,
    )
