-- ===== src/Http/Router/Guarded.antt =====
-- The handlers refuse whoever is not signed in.
use laap.Base.{none, ◌≡◌}
use laap.Db.{Moment}
use laap.Exec.Refuses.{Refuses, refuses_rules}
use laap.Http.Accounts.Keeps.{handle_account_routes-Refuses}
use laap.Http.Admin.Keeps.{handle_admin_and_dashboard_routes-Refuses}
use laap.Http.Context.{Request, Runtime}
use laap.Http.Context.Keeps.{current_user-Refuses, signed_in_user}
use laap.Http.Devices.Keeps.{handle_device_routes-Refuses}
use laap.Http.Leases.Keeps.{handle_lease_routes-Refuses}
use laap.Http.Router.{dispatch}
use laap.Schema.{Db}

-- Of the requests that `routeRequest` hands on to the handlers, which are those outside /api/auth but for
-- GET /api/health and GET /api/ready: one whose token is missing, is not valid, or names no active
-- user is refused with an error and leaves the database as it was, whatever its path, method and body.
pub dispatch-Refuses :
    (rt : Runtime) (m : Moment) (r : Request) (db : Db)
    → signed_in_user rt r db ≡ none
    → Refuses (dispatch rt m r) db
unfolding dispatch
dispatch-Refuses rt m r db none_in =
    let out = current_user-Refuses rt r db none_in in
    search
      (
        refuses_rules, handle_account_routes-Refuses, handle_lease_routes-Refuses,
        handle_device_routes-Refuses, handle_admin_and_dashboard_routes-Refuses,
      )
      depth 12
