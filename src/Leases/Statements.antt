-- ===== src/Leases/Statements.antt =====
-- What an invariant of every statement gives for this service.
use laap.Base.{String}
use laap.Db.{Moment}
use laap.Exec.Keeps.{Keeps, keeps_rules}
use laap.Leases.{Challenge, acquire_lease, request_lease}
use laap.Leases.Frame.{claim_account-Keeps, reap_stale_sessions-Keeps}
use laap.Schema.{Db}
use laap.Statements.{Statements, statements-Frame}

module _ {P : Db → Type 0} (st : Statements P) where
  pub acquire_lease-Keeps :
      (m : Moment) (user_id account_id device_id : String) (options : Challenge)
      → Keeps P (acquire_lease m user_id account_id device_id options)
  unfolding acquire_lease request_lease
  acquire_lease-Keeps m user_id account_id device_id options =
      search
        (
          keeps_rules,
          claim_account-Keeps (statements-Frame st),
          st.session,
          reap_stale_sessions-Keeps (statements-Frame st),
        )
        depth 20
