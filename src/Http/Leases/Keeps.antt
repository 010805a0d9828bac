-- ===== src/Http/Leases/Keeps.antt =====
-- The lease routes change the database by calls of the service alone.
use laap.Db.{Moment}
use laap.Exec.Keeps.{Keeps, keeps_rules}
use laap.Exec.Refuses.{Refuses, refuses_rules}
use laap.Http.Context.{Document, Request, Runtime, current_user, not_object, null_document, object}
use laap.Http.Context.Keeps.{config_of, http_rules}
use laap.Http.Leases.{
  acquire_route, blob_route, check_signature, handle_lease_routes, heartbeat_route, reason_of,
  reason_value, release_route,
}
use laap.Schema.{Db}
use laap.Service.Calls.{
  CallInvariant, acquire_lease_kept, get_blob_kept, heartbeat_lease_kept, release_lease_kept,
}
use laap.Types.{ApiUser}
use laap.Validation.{Value, flag, missing, null, other, text}
use laap.Validation.Requests.{AcquireInput}

module _ (rt : Runtime) {P : Db → Type 0} (inv : CallInvariant (config_of rt) P) where
  check_signature_kept :
      (m : Moment) (user : ApiUser) (input : AcquireInput)
      → Keeps P (check_signature rt m user input)
  unfolding check_signature
  check_signature_kept m user input = search keeps_rules

  acquire_route_kept :
      (m : Moment) (r : Request) (user : ApiUser) → Keeps P (acquire_route rt m r user)
  unfolding acquire_route
  acquire_route_kept m r user =
      search (http_rules, check_signature_kept, acquire_lease_kept inv) depth 16

  reason_value_kept : (v : Value) → Keeps P (reason_value v)
  reason_value_kept (text t) = search keeps_rules
  reason_value_kept (flag b) = search keeps_rules
  reason_value_kept null = search keeps_rules
  reason_value_kept missing = search keeps_rules
  reason_value_kept other = search keeps_rules

  reason_of_kept : (d : Document) → Keeps P (reason_of d)
  reason_of_kept null_document = search keeps_rules
  reason_of_kept not_object = search keeps_rules
  reason_of_kept (object f) = reason_value_kept (f "reason")

  release_route_kept :
      (m : Moment) (r : Request) (user : ApiUser) → Keeps P (release_route rt m r user)
  unfolding release_route
  release_route_kept m r user = search (http_rules, reason_of_kept, release_lease_kept inv) depth 16

  heartbeat_route_kept :
      (m : Moment) (r : Request) (user : ApiUser) → Keeps P (heartbeat_route rt m r user)
  unfolding heartbeat_route
  heartbeat_route_kept m r user = search (http_rules, heartbeat_lease_kept inv) depth 16

  blob_route_kept : (m : Moment) (r : Request) (user : ApiUser) → Keeps P (blob_route rt m r user)
  unfolding blob_route
  blob_route_kept m r user = search (http_rules, get_blob_kept inv) depth 16

  pub handle_lease_routes_kept : (m : Moment) (r : Request) → Keeps P (handle_lease_routes rt m r)
  unfolding handle_lease_routes
  handle_lease_routes_kept m r =
      search
        (http_rules, acquire_route_kept, release_route_kept, heartbeat_route_kept, blob_route_kept)
        depth 16

pub handle_lease_routes-Refuses :
    (rt : Runtime) (m : Moment) (r : Request) (db : Db)
    → Refuses (current_user rt r) db
    → Refuses (handle_lease_routes rt m r) db
unfolding handle_lease_routes
handle_lease_routes-Refuses rt m r db out = search refuses_rules
