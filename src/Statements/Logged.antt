-- ===== src/Statements/Logged.antt =====
-- The audit log only grows.
use mathlib.Core.List.{append_assoc}
use laap.Base.{Bool, List, String, [], ap, refl, ◌++◌, ◌∙◌, ◌∷◌, ◌≡◌}
use laap.Accounts.{remove_account}
use laap.Audit.{add_audit}
use laap.Db.{
  Moment, insert_account, insert_assignment, insert_device, insert_session, insert_user,
  update_accounts, update_assignments, update_devices, update_sessions, update_users,
}
use laap.Db.Writes.{
  write_accounts_after, write_assignments_after, write_devices_after, write_sessions_after,
  write_users_after,
}
use laap.Exec.Keeps.{Keeps}
use laap.Schema.{AuditLog, Db, Payload, User}
use laap.Statements.{Statements}

-- the log starts with these rows
pub record Extends (logs : List AuditLog) (db : Db) : Type 0 where
  pub added : List AuditLog
  pub split : db.audit_logs ≡ logs ++ added

same :
    {logs : List AuditLog} {db db' : Db}
    → Extends logs db
    → db'.audit_logs ≡ db.audit_logs
    → Extends logs db'
same h e = record { added = h.added; split = e ∙ h.split }

grown :
    (logs : List AuditLog) (row : AuditLog) (db : Db)
    → Extends logs db
    → Extends logs (record db { audit_logs = db.audit_logs ++ row ∷ [] })
grown logs row db h = record {
  added = h.added ++ row ∷ [];
  split = ap (λ (l : List AuditLog). l ++ row ∷ []) h.split ∙ append_assoc logs h.added (row ∷ []);
}

add_audit-Extends :
    (logs : List AuditLog) (m : Moment) (actor_id action entity_type entity_id : String)
    (payload : Payload)
    → Keeps (Extends logs) (add_audit m actor_id action entity_type entity_id payload)
unfolding add_audit
add_audit-Extends logs m actor_id action entity_type entity_id payload = record {
  at = λ db h. grown logs _ db h;
}

pub Extends-statements : (logs : List AuditLog) → Statements (Extends logs)
unfolding insert_user insert_account update_accounts remove_account insert_assignment
    update_assignments insert_device update_devices insert_session update_sessions
Extends-statements logs = record {
  audit = add_audit-Extends logs;
  user = λ row. record { at = λ db h. write_users_after (Extends logs) db h _ (same h refl) };
  account = λ row. record { at = λ db h. write_accounts_after (Extends logs) db h _ (same h refl) };
  accounts =
      λ p f. record { at = λ db h. write_accounts_after (Extends logs) db h _ (same h refl) };
  removal = λ id. record { at = λ db h. same h refl };
  assignment =
      λ row. record { at = λ db h. write_assignments_after (Extends logs) db h _ (same h refl) };
  assignments =
      λ p f. record { at = λ db h. write_assignments_after (Extends logs) db h _ (same h refl) };
  device = λ row. record { at = λ db h. write_devices_after (Extends logs) db h _ (same h refl) };
  devices = λ p f. record { at = λ db h. write_devices_after (Extends logs) db h _ (same h refl) };
  session = λ row. record { at = λ db h. write_sessions_after (Extends logs) db h _ (same h refl) };
  sessions =
      λ p f. record { at = λ db h. write_sessions_after (Extends logs) db h _ (same h refl) };
}

-- Rewriting a user writes nothing to the log.
pub update_users-Extends :
    (logs : List AuditLog) (p : User → Bool) (f : User → User)
    → Keeps (Extends logs) (update_users p f)
unfolding update_users
update_users-Extends logs p f = record {
  at = λ db h. write_users_after (Extends logs) db h _ (same h refl);
}
