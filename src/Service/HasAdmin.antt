-- ===== src/Service/HasAdmin.antt =====
-- An active administrator is left after any history.
use laap.Base.{List}
use laap.Db.{Moment}
use laap.Db.WellFormed.{WellFormed, update_users-WellFormed}
use laap.Schema.{Db}
use laap.Service.{Call, Config, run}
use laap.Service.Statements.{run-Keeps}
use laap.Statements.{statements-and}
use laap.Statements.WellFormed.{WellFormed-statements}
use laap.Users.HasAdmin.{HasAdmin, HasAdmin-statements}
use laap.Users.LastAdmin.{commit_reset-HasAdmin, update_user-HasAdmin}
use laap.Users.Statements.{commit_reset-Keeps, update_user-Keeps}

-- After any history of calls that starts within the constraints of the schema and with an active
-- administrator, there is an active administrator: no sequence of updates demotes or deactivates
-- the last one.
pub run-HasAdmin :
    (c : Config) (db : Db) (calls : List (Moment × Call))
    → WellFormed db
    → HasAdmin db
    → HasAdmin (run c db calls)
run-HasAdmin c db calls w h =
    (run-Keeps (statements-and WellFormed-statements HasAdmin-statements)
      (λ m actor_id user_id input. record {
        at = λ d (w', h'). (
          (update_user-Keeps WellFormed-statements update_users-WellFormed m actor_id user_id
                input).at
              d w',
          update_user-HasAdmin m actor_id user_id input d w' h',
        );
      })
      (λ t m actor_id user_id password. record {
        at = λ d (w', h'). (
          (commit_reset-Keeps WellFormed-statements update_users-WellFormed t m actor_id user_id
                password).at
              d w',
          (commit_reset-HasAdmin t m actor_id user_id password).at d h',
        );
      })
      c db calls (w, h)).1
