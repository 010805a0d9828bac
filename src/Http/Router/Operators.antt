-- ===== src/Http/Router/Operators.antt =====
-- What a signed-in user who is no administrator can change.
use laap.Base.{arith, false, some, ◌≡◌}
use laap.Db.{Moment}
use laap.Exec.{after, throw}
use laap.Http.Accounts.Operators.{handle_account_routes-Stays}
use laap.Http.Admin.Operators.{handle_admin_and_dashboard_routes-Stays}
use laap.Http.Context.{Request, Runtime, is_part}
use laap.Http.Context.Keeps.{signed_in_user}
use laap.Http.Router.{dispatch}
use laap.Schema.{Db}
use laap.Types.{ApiUser, is_admin}

-- A request of a signed-in user who is no administrator leaves the database as it was, whatever its
-- method and body, unless it is about leases, devices or the dashboard: the pool of accounts, the
-- users and the assignments are the administrators' to change.
pub dispatch-Stays :
    (rt : Runtime) (m : Moment) (r : Request) (db : Db) (user : ApiUser)
    → signed_in_user rt r db ≡ some user
    → is_admin user.role ≡ false
    → is_part 1 "leases" r ≡ false
    → is_part 1 "devices" r ≡ false
    → is_part 1 "dashboard" r ≡ false
    → after (dispatch rt m r db) ≡ db
unfolding dispatch throw
dispatch-Stays rt m r db user known operator no_lease no_device no_dashboard =
    let accounts = handle_account_routes-Stays rt m r db user known operator in
    let admin =
      handle_admin_and_dashboard_routes-Stays rt m r db user known operator no_dashboard in
    ground (arith, accounts, admin)
