-- ===== src/Http/Leases/Confined.antt =====
-- What the lease routes answer to a user who is no administrator.
use laap.Base.{false, some, ◌≡◌, true}
use laap.Db.{Moment}
use laap.Schema.{Db}
use laap.Http.Context.Keeps.{signed_in_user}
use laap.Http.Confined.{Confined-pure, confined_rules, is_own_outcome, signed_in-own}
use laap.Http.Context.{Request, Runtime}
use laap.Types.{ApiUser, is_admin}
use laap.Http.Leases.{
  acquire_route, blob_route, handle_lease_routes, heartbeat_route, release_route,
}

pub handle_lease_routes-own :
    (rt : Runtime) (m : Moment) (r : Request) (db : Db) (user : ApiUser)
    → signed_in_user rt r db ≡ some user
    → is_admin user.role ≡ false
    → is_own_outcome user.id (handle_lease_routes rt m r db) ≡ true
unfolding handle_lease_routes acquire_route release_route heartbeat_route blob_route
handle_lease_routes-own rt m r db user known operator =
    signed_in-own rt r db user _ known (search (confined_rules, Confined-pure) depth 16)
