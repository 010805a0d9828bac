-- ===== src/Http/Accounts/Confined.antt =====
-- What the account routes answer to a user who is no administrator.
use laap.Base.{false, some, ◌≡◌, true, arith}
use laap.Db.{Moment}
use laap.Schema.{Db}
use laap.Http.Context.Keeps.{signed_in_user}
use laap.Http.Confined.{
  Confined, Confined-guard, Confined-pure, confined_rules, is_own_outcome, scope_of-own,
  signed_in-own,
}
use laap.Exec.{throw}
use laap.Http.Context.{Request, Runtime}
use laap.Types.{ApiUser, is_admin}
use laap.Http.Accounts.{
  account_routes, create_route, delete_blob_route, delete_route, force_release_route,
  handle_account_routes, save_blob_route, signed_in_routes, update_route,
}

account_routes-Confined :
    (rt : Runtime) (m : Moment) (r : Request) (user : ApiUser)
    → is_admin user.role ≡ false
    → Confined user (account_routes rt m r user)
unfolding account_routes create_route update_route delete_route save_blob_route delete_blob_route
    force_release_route
account_routes-Confined rt m r user operator =
    search (confined_rules, Confined-guard, Confined-pure, scope_of-own user operator) depth 16

pub handle_account_routes-own :
    (rt : Runtime) (m : Moment) (r : Request) (db : Db) (user : ApiUser)
    → signed_in_user rt r db ≡ some user
    → is_admin user.role ≡ false
    → is_own_outcome user.id (handle_account_routes rt m r db) ≡ true
unfolding handle_account_routes signed_in_routes throw
handle_account_routes-own rt m r db user known operator =
    let own =
      signed_in-own rt r db user (account_routes rt m r) known
        (account_routes-Confined rt m r user operator) in
    ground (arith, own)
