-- ===== src/Accounts/WellFormed.antt =====
-- Deleting an account keeps the constraints of the schema, with or without the cascade.
use laap.Base.{Bool, List, String, and-true, arith, false, if◌then◌else◌, true, ◌==◌, ◌≡◌}
use laap.Accounts.{remove_account}
use laap.Base.Rows.{all-delete, delete_where, distinct_by-delete}
use laap.Db.WellFormed.{WellFormed}
use laap.Exec.Keeps.{Keeps}
use laap.Schema.{Session, accounts_ok, assignments_ok, reason_check, sessions_clash, sessions_ok}

sessions_ok-cascade :
    (cascade : Bool) (p : Session → Bool) (rows : List Session)
    → sessions_ok rows ≡ true
    → sessions_ok (if cascade then delete_where p rows else rows) ≡ true
unfolding sessions_ok
sessions_ok-cascade false p rows h = h
sessions_ok-cascade true p rows h =
    let (distinct, checked) = and-true _ _ h in
    rw (distinct_by-delete sessions_clash p rows distinct)
      (all-delete (λ s. reason_check s.release_reason) p rows checked)

pub remove_account-WellFormed : (account_id : String) → Keeps WellFormed (remove_account account_id)
unfolding remove_account accounts_ok assignments_ok
remove_account-WellFormed account_id = record {
  at = λ db w. record {
    users = w.users;
    accounts = distinct_by-delete _ _ db.accounts w.accounts;
    assignments = ground (
      arith,
      distinct_by-delete _ (λ a. a.account_id == account_id) db.assignments w.assignments,
    );
    devices = w.devices;
    sessions = sessions_ok-cascade db.foreign_keys _ db.sessions w.sessions;
  };
}
