-- ===== src/Http/Admin/Keeps.antt =====
-- The administration routes change the database by calls of the service alone.
use laap.Base.{String}
use laap.Db.{Moment}
use laap.Exec.Keeps.{Keeps}
use laap.Exec.Refuses.{Refuses, refuses_rules}
use laap.Http.Admin.{
  other_routes, admin_view, assign_route, assignment_routes, audit_route, create_user_route,
  dashboard_route, get_dashboard, handle_admin_and_dashboard_routes, reset_password_route,
  revoke_assignment_route, update_user_route, user_routes,
}
use laap.Http.Context.{Request, Runtime, View, current_user}
use laap.Http.Context.Keeps.{config_of, http_rules}
use laap.Schema.{Db}
use laap.Service.Calls.{
  CallInvariant, add_assignment_kept, commit_reset_kept, create_user_kept, reap_kept,
  revoke_assignment_kept, update_user_kept,
}
use laap.Types.{ApiUser}
use laap.Users.{reset_user_password}

module _ (rt : Runtime) {P : Db → Type 0} (inv : CallInvariant (config_of rt) P) where
  get_dashboard_kept : (m : Moment) (user_id : String) → Keeps P (get_dashboard m user_id)
  unfolding get_dashboard
  get_dashboard_kept m user_id = search (http_rules, reap_kept inv) depth 16

  dashboard_route_kept : (m : Moment) (user : ApiUser) → Keeps P (dashboard_route m user)
  unfolding dashboard_route
  dashboard_route_kept m user = search (http_rules, get_dashboard_kept) depth 16

  admin_view_kept : (user : ApiUser) (view : View) → Keeps P (admin_view user view)
  unfolding admin_view
  admin_view_kept user view = search (http_rules) depth 16

  create_user_route_kept :
      (m : Moment) (r : Request) (user : ApiUser) → Keeps P (create_user_route rt m r user)
  unfolding create_user_route
  create_user_route_kept m r user = search (http_rules, create_user_kept inv) depth 16

  update_user_route_kept :
      (m : Moment) (r : Request) (user : ApiUser) → Keeps P (update_user_route rt m r user)
  unfolding update_user_route
  update_user_route_kept m r user = search (http_rules, update_user_kept inv) depth 16

  reset_user_password_kept :
      (m : Moment) (a u p : String) → Keeps P (reset_user_password rt.texts m a u p)
  unfolding reset_user_password
  reset_user_password_kept m a u p = search (http_rules, commit_reset_kept inv) depth 16

  reset_password_route_kept :
      (m : Moment) (r : Request) (user : ApiUser) → Keeps P (reset_password_route rt m r user)
  unfolding reset_password_route
  reset_password_route_kept m r user = search (http_rules, reset_user_password_kept) depth 16

  assign_route_kept :
      (m : Moment) (r : Request) (user : ApiUser) → Keeps P (assign_route rt m r user)
  unfolding assign_route
  assign_route_kept m r user = search (http_rules, add_assignment_kept inv) depth 16

  revoke_assignment_route_kept :
      (m : Moment) (r : Request) (user : ApiUser) → Keeps P (revoke_assignment_route rt m r user)
  unfolding revoke_assignment_route
  revoke_assignment_route_kept m r user = search (http_rules, revoke_assignment_kept inv) depth 16

  audit_route_kept : (r : Request) (user : ApiUser) → Keeps P (audit_route rt r user)
  unfolding audit_route
  audit_route_kept r user = search (http_rules, admin_view_kept) depth 16

  user_routes_kept : (m : Moment) (r : Request) (user : ApiUser) → Keeps P (user_routes rt m r user)
  unfolding user_routes
  user_routes_kept m r user =
      search
        (
          http_rules, admin_view_kept, create_user_route_kept, update_user_route_kept,
          reset_password_route_kept,
        )
        depth 16

  assignment_routes_kept :
      (m : Moment) (r : Request) (user : ApiUser) → Keeps P (assignment_routes rt m r user)
  unfolding assignment_routes
  assignment_routes_kept m r user =
      search (http_rules, admin_view_kept, assign_route_kept, revoke_assignment_route_kept) depth 16

  pub handle_admin_and_dashboard_routes_kept :
      (m : Moment) (r : Request) → Keeps P (handle_admin_and_dashboard_routes rt m r)
  unfolding handle_admin_and_dashboard_routes other_routes
  handle_admin_and_dashboard_routes_kept m r =
      search
        (
          http_rules, dashboard_route_kept, user_routes_kept, assignment_routes_kept,
          audit_route_kept,
        )
        depth 16

pub handle_admin_and_dashboard_routes-Refuses :
    (rt : Runtime) (m : Moment) (r : Request) (db : Db)
    → Refuses (current_user rt r) db
    → Refuses (handle_admin_and_dashboard_routes rt m r) db
unfolding handle_admin_and_dashboard_routes other_routes
handle_admin_and_dashboard_routes-Refuses rt m r db out = search refuses_rules
