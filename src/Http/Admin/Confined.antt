-- ===== src/Http/Admin/Confined.antt =====
-- What the administration routes answer to a user who is no administrator.
use laap.Base.{◌&&◌, false, some, ◌≡◌, true}
use laap.Db.{Moment}
use laap.Schema.{Db}
use laap.Http.Context.Keeps.{signed_in_user}
use laap.Http.Confined.{
  Confined, Confined-guard, Confined-pure, confined_rules, is_own_outcome, scope_of-own,
  signed_in-Answers, Answers-if,
}
use laap.Http.Context.{is_part, is_route, Request, Runtime}
use laap.Http.Admin.Dashboard.{dashboard_route-Answers, signed_in-found}
use laap.Types.{ApiUser, is_admin}
use laap.Http.Admin.{
  dashboard_route, admin_view, assign_route, assignment_routes, audit_route, create_user_route,
  handle_admin_and_dashboard_routes, other_routes, reset_password_route, revoke_assignment_route,
  update_user_route, user_routes,
}

module _ (user : ApiUser) (operator : is_admin user.role ≡ false) where
  user_routes-Confined :
      (rt : Runtime) (m : Moment) (r : Request) → Confined user (user_routes rt m r user)
  unfolding user_routes admin_view create_user_route update_user_route reset_password_route
  user_routes-Confined rt m r = search (confined_rules, Confined-guard) depth 16

  assignment_routes-Confined :
      (rt : Runtime) (m : Moment) (r : Request) → Confined user (assignment_routes rt m r user)
  unfolding assignment_routes admin_view assign_route revoke_assignment_route
  assignment_routes-Confined rt m r = search (confined_rules, Confined-guard) depth 16

  audit_route-Confined : (rt : Runtime) (r : Request) → Confined user (audit_route rt r user)
  unfolding audit_route admin_view
  audit_route-Confined rt r = search (confined_rules, Confined-guard)

  other_routes-Confined :
      (rt : Runtime) (m : Moment) (r : Request) → Confined user (other_routes rt m r user)
  unfolding other_routes
  other_routes-Confined rt m r =
      search
        (
          confined_rules,
          Confined-pure,
          scope_of-own user operator,
          user_routes-Confined,
          assignment_routes-Confined,
          audit_route-Confined,
        )
        depth 16

pub handle_admin_and_dashboard_routes-own :
    (rt : Runtime) (m : Moment) (r : Request) (db : Db) (user : ApiUser)
    → signed_in_user rt r db ≡ some user
    → is_admin user.role ≡ false
    → is_own_outcome user.id (handle_admin_and_dashboard_routes rt m r db) ≡ true
unfolding handle_admin_and_dashboard_routes
handle_admin_and_dashboard_routes-own rt m r db user known operator =
    signed_in-Answers rt r db user _ known (
      Answers-if user db (is_part 1 "dashboard" r && is_route 2 "GET" r) (dashboard_route m user)
        (other_routes rt m r user)
        (dashboard_route-Answers m user db operator (signed_in-found rt r db user known))
        (other_routes-Confined user operator rt m r))
