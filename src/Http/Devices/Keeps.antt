-- ===== src/Http/Devices/Keeps.antt =====
-- The device routes change the database by calls of the service alone.
use laap.Db.{Moment}
use laap.Exec.Keeps.{Keeps}
use laap.Exec.Refuses.{Refuses, refuses_rules}
use laap.Http.Context.{Request, Runtime, current_user}
use laap.Http.Context.Keeps.{config_of, http_rules}
use laap.Http.Devices.{
  approve_route, handle_device_routes, register_route, revoke_route, touch_route,
}
use laap.Schema.{Db}
use laap.Service.Calls.{
  CallInvariant, approve_device_kept, register_device_kept, revoke_device_kept, touch_device_kept,
}
use laap.Types.{ApiUser}

module _ (rt : Runtime) {P : Db → Type 0} (inv : CallInvariant (config_of rt) P) where
  register_route_kept :
      (m : Moment) (r : Request) (user : ApiUser) → Keeps P (register_route rt m r user)
  unfolding register_route
  register_route_kept m r user = search (http_rules, register_device_kept inv) depth 16

  touch_route_kept : (m : Moment) (r : Request) (user : ApiUser) → Keeps P (touch_route rt m r user)
  unfolding touch_route
  touch_route_kept m r user = search (http_rules, touch_device_kept inv) depth 16

  approve_route_kept :
      (m : Moment) (r : Request) (user : ApiUser) → Keeps P (approve_route rt m r user)
  unfolding approve_route
  approve_route_kept m r user = search (http_rules, approve_device_kept inv) depth 16

  revoke_route_kept :
      (m : Moment) (r : Request) (user : ApiUser) → Keeps P (revoke_route rt m r user)
  unfolding revoke_route
  revoke_route_kept m r user = search (http_rules, revoke_device_kept inv) depth 16

  pub handle_device_routes_kept : (m : Moment) (r : Request) → Keeps P (handle_device_routes rt m r)
  unfolding handle_device_routes
  handle_device_routes_kept m r =
      search
        (http_rules, register_route_kept, touch_route_kept, approve_route_kept, revoke_route_kept)
        depth 16

pub handle_device_routes-Refuses :
    (rt : Runtime) (m : Moment) (r : Request) (db : Db)
    → Refuses (current_user rt r) db
    → Refuses (handle_device_routes rt m r) db
unfolding handle_device_routes
handle_device_routes-Refuses rt m r db out = search refuses_rules
