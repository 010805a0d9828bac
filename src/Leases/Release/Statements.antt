-- ===== src/Leases/Release/Statements.antt =====
-- What an invariant of every statement gives for this service.
use laap.Base.{String}
use laap.Db.{Moment}
use laap.Exec.Keeps.{Keeps, keeps_rules}
use laap.Leases.Release.{beat, heartbeat_lease}
use laap.Leases.Release.Frame.{beat_result-Keeps, expire_lease-Keeps, record_beat-Keeps}
use laap.Schema.{Db}
use laap.Statements.{Statements, statements-Frame}
use laap.Types.{SessionRuntimeState}

module _ {P : Db → Type 0} (st : Statements P) where
  pub heartbeat_lease-Keeps :
      (m : Moment) (user_id session_id : String) (state : SessionRuntimeState)
      → Keeps P (heartbeat_lease m user_id session_id state)
  unfolding heartbeat_lease beat
  heartbeat_lease-Keeps m user_id session_id state =
      search
        (
          keeps_rules,
          expire_lease-Keeps (statements-Frame st),
          record_beat-Keeps (statements-Frame st),
          beat_result-Keeps (statements-Frame st),
          st.sessions,
        )
        depth 12
