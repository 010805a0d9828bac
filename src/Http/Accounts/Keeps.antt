-- ===== src/Http/Accounts/Keeps.antt =====
-- The account routes change the database by calls of the service alone.
use laap.Db.{Moment}
use laap.Exec.Keeps.{Keeps}
use laap.Exec.Refuses.{Refuses, refuses_rules}
use laap.Http.Accounts.{
  account_routes, create_route, delete_blob_route, delete_route, force_release_route,
  handle_account_routes, save_blob_route, signed_in_routes, update_route,
}
use laap.Http.Context.{Request, Runtime, current_user}
use laap.Http.Context.Keeps.{config_of, http_rules}
use laap.Schema.{Db}
use laap.Service.Calls.{
  CallInvariant, create_account_kept, delete_account_kept, delete_blob_kept, force_release_kept,
  save_blob_kept, update_account_kept,
}
use laap.Types.{ApiUser}

module _ (rt : Runtime) {P : Db → Type 0} (inv : CallInvariant (config_of rt) P) where
  create_route_kept :
      (m : Moment) (r : Request) (user : ApiUser) → Keeps P (create_route rt m r user)
  unfolding create_route
  create_route_kept m r user = search (http_rules, create_account_kept inv) depth 16

  update_route_kept :
      (m : Moment) (r : Request) (user : ApiUser) → Keeps P (update_route rt m r user)
  unfolding update_route
  update_route_kept m r user = search (http_rules, update_account_kept inv) depth 16

  delete_route_kept :
      (m : Moment) (r : Request) (user : ApiUser) → Keeps P (delete_route rt m r user)
  unfolding delete_route
  delete_route_kept m r user = search (http_rules, delete_account_kept inv) depth 16

  save_blob_route_kept :
      (m : Moment) (r : Request) (user : ApiUser) → Keeps P (save_blob_route rt m r user)
  unfolding save_blob_route
  save_blob_route_kept m r user = search (http_rules, save_blob_kept inv) depth 16

  delete_blob_route_kept :
      (m : Moment) (r : Request) (user : ApiUser) → Keeps P (delete_blob_route rt m r user)
  unfolding delete_blob_route
  delete_blob_route_kept m r user = search (http_rules, delete_blob_kept inv) depth 16

  force_release_route_kept :
      (m : Moment) (r : Request) (user : ApiUser) → Keeps P (force_release_route rt m r user)
  unfolding force_release_route
  force_release_route_kept m r user = search (http_rules, force_release_kept inv) depth 16

  account_routes_kept :
      (m : Moment) (r : Request) (user : ApiUser) → Keeps P (account_routes rt m r user)
  unfolding account_routes
  account_routes_kept m r user =
      search
        (
          http_rules, create_route_kept, update_route_kept, delete_route_kept, save_blob_route_kept,
          delete_blob_route_kept, force_release_route_kept,
        )
        depth 16

  signed_in_routes_kept : (m : Moment) (r : Request) → Keeps P (signed_in_routes rt m r)
  unfolding signed_in_routes
  signed_in_routes_kept m r = search (http_rules, account_routes_kept) depth 16

  pub handle_account_routes_kept :
      (m : Moment) (r : Request) → Keeps P (handle_account_routes rt m r)
  unfolding handle_account_routes
  handle_account_routes_kept m r = search (http_rules, signed_in_routes_kept) depth 16

pub handle_account_routes-Refuses :
    (rt : Runtime) (m : Moment) (r : Request) (db : Db)
    → Refuses (current_user rt r) db
    → Refuses (handle_account_routes rt m r) db
unfolding handle_account_routes signed_in_routes
handle_account_routes-Refuses rt m r db out = search refuses_rules
