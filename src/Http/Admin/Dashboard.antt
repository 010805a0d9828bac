-- ===== src/Http/Admin/Dashboard.antt =====
-- The profile on the dashboard is that of the user who asks for it.
use laap.Base.{
  eq_refl, Option, Option-cases, String, eq_iff, false, inl, inr, none, refl, ap, some, true, ◌∙◌,
  ◌≡◌, arith,
}
use laap.Base.Rows.{find_where-holds}
use laap.Db.{Moment}
use laap.Db.Queries.{user_by_id}
use laap.Exec.{pure, or_throw}
use laap.Exec.Yields.{Yields-bind, Yields-gets, Yields-of_Keeps}
use laap.Http.Admin.{View, dashboard_route, get_dashboard}
use laap.Http.Confined.{is_own_view, Answers}
use laap.Http.Context.{Request, Runtime, active, read_auth}
use laap.Http.Context.Keeps.{signed_in_user}
use laap.Leases.Frame.{Frame, frame_of, reap_stale_sessions-Keeps}
use laap.Schema.{Db}
use laap.Types.{ApiUser, is_admin}
use laap.Users.{find_user_by_id, public_user}

found_id : (id : String) (db : Db) (u : ApiUser) → find_user_by_id id db ≡ some u → u.id ≡ id
unfolding find_user_by_id
found_id id db u e = elim (Option-cases (user_by_id id db)) [
  | inl missing ↦ let absent : none ≡ some u = rw missing at e in cc
  | inr (row, hit) ↦
      let same : some (public_user row) ≡ some u = rw hit at e in
      let key : row.id ≡ id = (eq_iff row.id id).0 (find_where-holds _ db.users row hit) in
      let profile : public_user row ≡ u = cc in rw (← profile) key
]

active-found : (found : Option ApiUser) (u : ApiUser) → active found ≡ some u → found ≡ some u
active-found none u e = cc
active-found (some v) u e = ground arith

-- the user of a request is the one whom the database has under that id
pub signed_in-found :
    (rt : Runtime) (r : Request) (db : Db) (user : ApiUser)
    → signed_in_user rt r db ≡ some user
    → find_user_by_id user.id db ≡ some user
signed_in-found rt r db user known = elim (Option-cases (read_auth rt r)) [
  | inl no_token ↦ let absent : none ≡ some user = rw no_token at known in cc
  | inr (c, token) ↦
      let named : active (find_user_by_id c.sub db) ≡ some user = rw token at known in
      let found = active-found (find_user_by_id c.sub db) user named in
      ap (λ id. find_user_by_id id db) (found_id c.sub db user found) ∙ found
]

abbrev Found : ApiUser → Db → Type 0
Found user db = find_user_by_id user.id db ≡ some user

Found-frame : (user : ApiUser) → Frame (Found user)
unfolding find_user_by_id
Found-frame user = frame_of (Found user) (λ db rows logs h. h)

own_snapshot :
    (user found : ApiUser)
    → is_admin user.role ≡ false
    → some found ≡ some user
    → is_own_view user.id (View.snapshot found) ≡ true
own_snapshot user found operator e =
    let same : found ≡ user = cc in rw (same, operator) (eq_refl user.id)

pub dashboard_route-Answers :
    (m : Moment) (user : ApiUser) (db : Db)
    → is_admin user.role ≡ false
    → Found user db
    → Answers user db (dashboard_route m user)
unfolding dashboard_route get_dashboard pure or_throw
dashboard_route-Answers m user db operator h =
    Yields-bind (λ found _. some found ≡ some user) _ _ _ db
      (Yields-bind (λ _. Found user) _ _ _ db
        (Yields-of_Keeps (Found user) _ (reap_stale_sessions-Keeps (Found-frame user) m) db h)
        λ done db' k. Yields-gets _ _ _ db' (rw k refl))
      λ found db' e. own_snapshot user found operator e
