-- ===== src/Http/Router/Refines.antt =====
-- The server over requests and timer ticks does to its database what a history of service calls does.
use laap.Base.{List, [], ap, arith, refl, ◌++◌, ◌∙◌, ◌∷◌, ◌≡◌}
use laap.Db.{Moment}
use laap.Exec.{pure, throw}
use laap.Exec.Keeps.{Keeps}
use laap.Http.Accounts.Keeps.{handle_account_routes_kept}
use laap.Http.Admin.Keeps.{handle_admin_and_dashboard_routes_kept}
use laap.Http.Auth.{handle_auth_routes}
use laap.Http.Auth.Unchanged.{handle_auth_routes-db, login_db}
use laap.Http.Context.{Request, Runtime}
use laap.Http.Context.Keeps.{config_of, http_rules}
use laap.Http.Devices.Keeps.{handle_device_routes_kept}
use laap.Http.Leases.Keeps.{handle_lease_routes_kept}
use laap.Http.RateLimit.{Entries}
use laap.Http.Router.{Event, ServerState, dispatch, request, route_request, serve, serve_all, timer}
use laap.Schema.{Db}
use laap.Service.{Call, Config, perform, run}
use laap.Service.Calls.{CallInvariant, reap_kept}

dispatch_kept :
    (rt : Runtime) {P : Db → Type 0} (inv : CallInvariant (config_of rt) P) (m : Moment)
    (r : Request)
    → Keeps P (dispatch rt m r)
unfolding dispatch
dispatch_kept rt inv m r =
    search
      (
        http_rules,
        handle_account_routes_kept rt inv,
        handle_lease_routes_kept rt inv,
        handle_device_routes_kept rt inv,
        handle_admin_and_dashboard_routes_kept rt inv,
      )
      depth 12

route_request_kept :
    (rt : Runtime) {P : Db → Type 0} (inv : CallInvariant (config_of rt) P) (m : Moment)
    (r : Request) (entries : Entries) (db : Db)
    → P db
    → P (login_db (route_request rt m r entries db))
unfolding route_request pure throw
route_request_kept rt {P} inv m r entries db h =
    let by_auth : P (login_db (handle_auth_routes rt m r entries db)) =
      rw (handle_auth_routes-db rt m r entries db) h in
    ground (arith, (dispatch_kept rt inv m r).at db h, by_auth)

serve_kept :
    (rt : Runtime) {P : Db → Type 0} (inv : CallInvariant (config_of rt) P) (m : Moment) (e : Event)
    (s : ServerState)
    → P s.db
    → P (serve rt m e s).db
unfolding serve
serve_kept rt inv m (request r) s h = route_request_kept rt inv m r s.entries s.db h
serve_kept rt inv m timer s h = (reap_kept inv m).at s.db h

pub serve_all_kept :
    (rt : Runtime) {P : Db → Type 0} (inv : CallInvariant (config_of rt) P) (s : ServerState)
    (events : List (Moment × Event))
    → P s.db
    → P (serve_all rt s events).db
unfolding serve_all
serve_all_kept rt inv s [] h = h
serve_all_kept rt inv s ((m, e) ∷ rest) h =
    serve_all_kept rt inv (serve rt m e s) rest (serve_kept rt inv m e s h)

-- a history of service calls leads here
pub record Reached (c : Config) (start db : Db) : Type 0 where
  pub calls : List (Moment × Call)
  pub leads : run c start calls ≡ db

run-append :
    (c : Config) (db : Db) (calls rest : List (Moment × Call))
    → run c db (calls ++ rest) ≡ run c (run c db calls) rest
unfolding run
run-append c db [] rest = refl
run-append c db ((m, call) ∷ calls) rest = run-append c (perform c m call db) calls rest

Reached-call : (c : Config) (first : Db) → CallInvariant c (Reached c first)
unfolding run
Reached-call c first = record {
  step = λ m call db h. record {
    calls = h.calls ++ (m, call) ∷ [];
    leads =
        run-append c first h.calls ((m, call) ∷ []) ∙ ap (λ (d : Db). perform c m call d) h.leads;
  };
}

-- Whatever requests and timer ticks the server handles, in any order, its database is one that some
-- history of service calls reaches from the same start: the HTTP layer writes by the service alone.
pub serve_all-Reached :
    (rt : Runtime) (s : ServerState) (events : List (Moment × Event))
    → Reached (config_of rt) s.db (serve_all rt s events).db
unfolding run
serve_all-Reached rt s events =
    serve_all_kept rt (Reached-call (config_of rt) s.db) s events
      (record { calls = []; leads = refl })
