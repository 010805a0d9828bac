-- ===== src/Audit.antt =====
-- The audit log: `addAudit` of apps/api/src/services/sqlite/admin.service.ts, which every service
-- is given as `addAuditFn` (apps/api/src/services/laap-service.ts).
use laap.Base.{List, String, [], length, ◌++◌, ◌∷◌}
use laap.Db.{Moment}
use laap.Db.WellFormed.{WellFormed}
use laap.Exec.{M, ok}
use laap.Exec.Keeps.{Keeps}
use laap.Schema.{AuditLog, Db, Payload}

unfoldable pub add_audit : Moment → String → String → String → String → Payload → M (Unit {0})
add_audit m actor_id action entity_type entity_id payload db =
    ok tt (record db { audit_logs = db.audit_logs ++ row ∷ [] })
  where
    row : AuditLog
    row = record {
      id = m.audit_uuid (length db.audit_logs);
      actor_id = actor_id;
      action = action;
      entity_type = entity_type;
      entity_id = entity_id;
      payload = payload;
      created_at = m.now;
    }

-- What does not read the log is kept by an entry in it.
pub add_audit-Keeps :
    (P : Db → Type 0)
    → ((db : Db) (rows : List AuditLog) → P db → P (record db { audit_logs = rows }))
    → (m : Moment) (actor_id action entity_type entity_id : String) (payload : Payload)
    → Keeps P (add_audit m actor_id action entity_type entity_id payload)
unfolding add_audit
add_audit-Keeps P frame m actor_id action entity_type entity_id payload = record {
  at = λ db h. frame db _ h;
}

pub add_audit-WellFormed :
    (m : Moment) (actor_id action entity_type entity_id : String) (payload : Payload)
    → Keeps WellFormed (add_audit m actor_id action entity_type entity_id payload)
add_audit-WellFormed = add_audit-Keeps WellFormed λ db rows w. record {
  users = w.users;
  accounts = w.accounts;
  assignments = w.assignments;
  devices = w.devices;
  sessions = w.sessions;
}
