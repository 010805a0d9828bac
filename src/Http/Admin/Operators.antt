-- ===== src/Http/Admin/Operators.antt =====
-- The administration routes of a user who is no administrator only read.
use laap.Base.{Bool, false, if◌then◌else◌, ◌&&◌, some, ◌≡◌}
use laap.Db.{Moment}
use laap.Exec.{M, after}
use laap.Exec.Keeps.{Keeps}
use laap.Http.Admin.{
  admin_view, assign_route, assignment_routes, audit_route, create_user_route,
  handle_admin_and_dashboard_routes, other_routes, reset_password_route, revoke_assignment_route,
  update_user_route, user_routes,
}
use laap.Http.Context.{Request, Runtime, is_part}
use laap.Http.Context.Keeps.{guarded_kept, http_rules, signed_in-Stays, signed_in_user}
use laap.Schema.{Db}
use laap.Types.{ApiUser, is_admin}

module _ {P : Db → Type 0} (user : ApiUser) (operator : is_admin user.role ≡ false) where
  user_routes_kept : (rt : Runtime) (m : Moment) (r : Request) → Keeps P (user_routes rt m r user)
  unfolding user_routes admin_view create_user_route update_user_route reset_password_route
  user_routes_kept rt m r = search (guarded_kept user operator, http_rules) depth 16

  assignment_routes_kept :
      (rt : Runtime) (m : Moment) (r : Request) → Keeps P (assignment_routes rt m r user)
  unfolding assignment_routes admin_view assign_route revoke_assignment_route
  assignment_routes_kept rt m r = search (guarded_kept user operator, http_rules) depth 16

  audit_route_kept : (rt : Runtime) (r : Request) → Keeps P (audit_route rt r user)
  unfolding audit_route admin_view
  audit_route_kept rt r = search (guarded_kept user operator, http_rules) depth 16

-- a branch that is not taken
skipped_kept :
    {A : Type 0} {P : Db → Type 0} (b c : Bool) (m n : M A)
    → b ≡ false
    → Keeps P n
    → Keeps P (if b && c then m else n)
skipped_kept b c m n off k = rw off k

pub handle_admin_and_dashboard_routes-Stays :
    (rt : Runtime) (m : Moment) (r : Request) (db : Db) (user : ApiUser)
    → signed_in_user rt r db ≡ some user
    → is_admin user.role ≡ false
    → is_part 1 "dashboard" r ≡ false
    → after (handle_admin_and_dashboard_routes rt m r db) ≡ db
unfolding handle_admin_and_dashboard_routes other_routes
handle_admin_and_dashboard_routes-Stays rt m r db user known operator other =
    signed_in-Stays rt r db user _ known (
      skipped_kept _ _ _ _ other (
        search
          (
            http_rules,
            user_routes_kept user operator,
            assignment_routes_kept user operator,
            audit_route_kept user operator,
          )
          depth 16))
