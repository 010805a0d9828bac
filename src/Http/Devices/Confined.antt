-- ===== src/Http/Devices/Confined.antt =====
-- What the device routes answer to a user who is no administrator.
use laap.Base.{false, some, ◌≡◌, true}
use laap.Db.{Moment}
use laap.Schema.{Db}
use laap.Http.Context.Keeps.{signed_in_user}
use laap.Http.Confined.{
  Confined-guard, Confined-pure, confined_rules, is_own_outcome, scope_of-own, signed_in-own,
}
use laap.Http.Context.{Request, Runtime}
use laap.Types.{ApiUser, is_admin}
use laap.Http.Devices.{
  approve_route, handle_device_routes, register_route, revoke_route, touch_route,
}

pub handle_device_routes-own :
    (rt : Runtime) (m : Moment) (r : Request) (db : Db) (user : ApiUser)
    → signed_in_user rt r db ≡ some user
    → is_admin user.role ≡ false
    → is_own_outcome user.id (handle_device_routes rt m r db) ≡ true
unfolding handle_device_routes approve_route register_route revoke_route touch_route
handle_device_routes-own rt m r db user known operator =
    signed_in-own rt r db user _ known
      (search (confined_rules, Confined-guard, Confined-pure, scope_of-own user operator) depth 16)
