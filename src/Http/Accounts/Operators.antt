-- ===== src/Http/Accounts/Operators.antt =====
-- The account routes of a user who is no administrator only read.
use laap.Base.{arith, false, some, ◌≡◌}
use laap.Db.{Moment}
use laap.Exec.{after, throw}
use laap.Exec.Keeps.{Keeps}
use laap.Http.Accounts.{
  account_routes, create_route, delete_blob_route, delete_route, force_release_route,
  handle_account_routes, save_blob_route, signed_in_routes, update_route,
}
use laap.Http.Context.{Request, Runtime}
use laap.Http.Context.Keeps.{guarded_kept, http_rules, signed_in-Stays, signed_in_user}
use laap.Schema.{Db}
use laap.Types.{ApiUser, is_admin}

account_routes_kept :
    {P : Db → Type 0} (user : ApiUser)
    → is_admin user.role ≡ false
    → (rt : Runtime) (m : Moment) (r : Request) → Keeps P (account_routes rt m r user)
unfolding account_routes create_route update_route delete_route save_blob_route delete_blob_route
    force_release_route
account_routes_kept user operator rt m r = search (guarded_kept user operator, http_rules) depth 16

pub handle_account_routes-Stays :
    (rt : Runtime) (m : Moment) (r : Request) (db : Db) (user : ApiUser)
    → signed_in_user rt r db ≡ some user
    → is_admin user.role ≡ false
    → after (handle_account_routes rt m r db) ≡ db
unfolding handle_account_routes signed_in_routes throw
handle_account_routes-Stays rt m r db user known operator =
    let stays =
      signed_in-Stays rt r db user (account_routes rt m r) known
        (account_routes_kept user operator rt m r) in
    ground (arith, stays)
