-- ===== src/Service/Logged.antt =====
-- The audit log over a history.
use mathlib.Core.List.{append-nil}
use laap.Base.{List, [], sym}
use laap.Db.{Moment}
use laap.Schema.{Db}
use laap.Service.{Call, Config, run}
use laap.Service.Statements.{run-Keeps}
use laap.Statements.Logged.{Extends, Extends-statements, update_users-Extends}
use laap.Users.Statements.{commit_reset-Keeps, update_user-Keeps}

-- Over any history of calls, from any database and with any results, the audit log keeps its rows
-- in their order and only grows at its end: no call, and no rollback, takes an entry away that an
-- earlier call left.
pub run-Extends :
    (c : Config) (db : Db) (calls : List (Moment × Call)) → Extends db.audit_logs (run c db calls)
run-Extends c db calls =
    let st = Extends-statements db.audit_logs in
    let users = update_users-Extends db.audit_logs in
    run-Keeps st (update_user-Keeps st users) (commit_reset-Keeps st users) c db calls
      (record { added = []; split = sym (append-nil db.audit_logs) })
