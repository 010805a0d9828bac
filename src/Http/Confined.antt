-- ===== src/Http/Confined.antt =====
-- What a reply to a user who is no administrator carries.
use laap.Base.{
  not, ◌&&◌, refl, Bool, Option, String, eq_refl, false, if◌then◌else◌, none, some, true, ◌==◌, ◌≡◌,
}
use laap.Exec.{Failure, M, Outcome, err, ok, ensure, pure, throw, ◌>>=◌}
use laap.Exec.Yields.{Yields, Yields-skip}
use laap.Http.Context.Keeps.{current_user-returns, signed_in_user}
use laap.Http.Context.{
  Runtime, Request, current_user, Answer, Reply, View, get_metrics, list_accounts, list_activity,
  list_assignments, audit_page, list_devices, list_sessions, list_users, profile,
  require_current_admin, shown, signed_in,
}
use laap.Http.Devices.{scope_of}
use laap.Schema.{Db}
use laap.Types.{ApiUser, is_admin}

-- the query is limited to the rows of this user
abbrev pub is_scoped : Option String → String → Bool
is_scoped none id = false
is_scoped (some scope) id = scope == id

abbrev pub is_own_view : String → View → Bool
is_own_view id (list_accounts scope) = is_scoped scope id
is_own_view id (list_devices scope) = is_scoped scope id
is_own_view id (get_metrics scope) = is_scoped scope id
is_own_view id (list_sessions scope) = is_scoped scope id
is_own_view id (list_activity scope) = is_scoped scope id
is_own_view id (View.snapshot found) = not (is_admin found.role) && found.id == id
is_own_view id list_users = false
is_own_view id list_assignments = false
is_own_view id (audit_page limit offset) = false

-- no query beyond the user's own rows, and no profile but the user's own, with the dashboard
abbrev pub is_confined : String → Answer → Bool
is_confined id (shown view) = is_own_view id view
is_confined id (profile p) = false
is_confined id (signed_in u) = u.id == id
is_confined id _ = true

-- where the action returns, its reply is confined to the user
pub record Confined (user : ApiUser) (m : M Reply) : Type 0 where
  pub at : (db : Db) → Yields (λ reply _. is_confined user.id reply.answer ≡ true) (m db)

module _ {user : ApiUser} where
  pub Confined-pure :
      (reply : Reply) → is_confined user.id reply.answer ≡ true → Confined user (pure reply)
  unfolding pure
  Confined-pure reply h = record { at = λ db. h }

  pub Confined-throw : (e : Failure) → Confined user (throw e)
  unfolding throw
  Confined-throw e = record { at = λ db. tt }

  pub Confined-bind :
      {A : Type 0} (m : M A) (f : A → M Reply)
      → ((a : A) → Confined user (f a))
      → Confined user (m >>= f)
  Confined-bind m f h = record { at = λ db. Yields-skip _ m f db (λ a db'. (h a).at db') }

  pub Confined-if :
      (b : Bool) (m n : M Reply)
      → Confined user m
      → Confined user n
      → Confined user (if b then m else n)
  Confined-if true m n h k = h
  Confined-if false m n h k = k

  pub Confined-guard :
      (f : Unit {0} → M Reply)
      → is_admin user.role ≡ false
      → Confined user (require_current_admin user >>= f)
  unfolding require_current_admin ◌>>=◌ ensure
  Confined-guard f operator = record { at = λ db. rw operator tt }

pub scope_of-own :
    (user : ApiUser) → is_admin user.role ≡ false → is_scoped (scope_of user) user.id ≡ true
scope_of-own user operator = rw operator (eq_refl user.id)

-- an outcome that is an error, or a reply that is confined to the user
abbrev pub is_own_outcome : String → Outcome Reply → Bool
is_own_outcome id (ok reply db) = is_confined id reply.answer
is_own_outcome id (err e db) = true

is_own_outcome-of_Yields :
    (id : String) (o : Outcome Reply)
    → Yields (λ reply _. is_confined id reply.answer ≡ true) o
    → is_own_outcome id o ≡ true
is_own_outcome-of_Yields id (ok reply db) h = h
is_own_outcome-of_Yields id (err e db) h = refl

-- the reply of a route at this database is confined to the user
abbrev pub Answers : ApiUser → Db → M Reply → Type 0
Answers user db m = Yields (λ reply _. is_confined user.id reply.answer ≡ true) (m db)

pub Answers-if :
    (user : ApiUser) (db : Db) (b : Bool) (m n : M Reply)
    → Answers user db m
    → Confined user n
    → Answers user db (if b then m else n)
Answers-if user db true m n h k = h
Answers-if user db false m n h k = k.at db

pub signed_in-Answers :
    (rt : Runtime) (r : Request) (db : Db) (user : ApiUser) (f : ApiUser → M Reply)
    → signed_in_user rt r db ≡ some user
    → Answers user db (f user)
    → is_own_outcome user.id ((current_user rt r >>= f) db) ≡ true
unfolding ◌>>=◌
signed_in-Answers rt r db user f known h =
    rw (current_user-returns rt r db user known) (is_own_outcome-of_Yields user.id _ h)

pub signed_in-own :
    (rt : Runtime) (r : Request) (db : Db) (user : ApiUser) (f : ApiUser → M Reply)
    → signed_in_user rt r db ≡ some user
    → Confined user (f user)
    → is_own_outcome user.id ((current_user rt r >>= f) db) ≡ true
signed_in-own rt r db user f known h = signed_in-Answers rt r db user f known (h.at db)

pub ruleset confined_rules = (Confined-throw, Confined-bind, Confined-if)
