-- ===== src/Statements/WellFormed.antt =====
-- Every statement leaves the tables within the constraints of the schema.
use laap.Accounts.WellFormed.{remove_account-WellFormed}
use laap.Audit.{add_audit-WellFormed}
use laap.Db.WellFormed.{
  WellFormed, insert_account-WellFormed, insert_assignment-WellFormed, insert_device-WellFormed,
  insert_session-WellFormed, insert_user-WellFormed, update_accounts-WellFormed,
  update_assignments-WellFormed, update_devices-WellFormed, update_sessions-WellFormed,
}
use laap.Statements.{Statements}

pub WellFormed-statements : Statements WellFormed
WellFormed-statements = record {
  audit = add_audit-WellFormed;
  user = insert_user-WellFormed;
  account = insert_account-WellFormed;
  accounts = update_accounts-WellFormed;
  removal = remove_account-WellFormed;
  assignment = insert_assignment-WellFormed;
  assignments = update_assignments-WellFormed;
  device = insert_device-WellFormed;
  devices = update_devices-WellFormed;
  session = insert_session-WellFormed;
  sessions = update_sessions-WellFormed;
}
