-- ===== src/Accounts/Statements.antt =====
-- What an invariant of every statement gives for this service.
use laap.Base.{Bool, String}
use laap.Accounts.{
  AccountInput, AccountPatch, create_account, delete_account, guard_offline, update_account,
  write_patch,
}
use laap.Db.{Moment}
use laap.Exec.Keeps.{Keeps, keeps_rules}
use laap.Schema.{Db}
use laap.Statements.{Statements}

pub guard_offline-Keeps :
    (P : Db → Type 0) (account_id : String) (offline : Bool)
    → Keeps P (guard_offline account_id offline)
unfolding guard_offline
guard_offline-Keeps P account_id offline = search keeps_rules

module _ {P : Db → Type 0} (st : Statements P) where
  pub create_account-Keeps :
      (m : Moment) (actor_id : String) (input : AccountInput)
      → Keeps P (create_account m actor_id input)
  unfolding create_account
  create_account-Keeps m actor_id input = search (keeps_rules, st.audit, st.account) depth 12

  write_patch-Keeps :
      (m : Moment) (account_id : String) (input : AccountPatch)
      → Keeps P (write_patch m account_id input)
  unfolding write_patch
  write_patch-Keeps m account_id input = search (keeps_rules, st.accounts)

  pub update_account-Keeps :
      (m : Moment) (actor_id account_id : String) (input : AccountPatch)
      → Keeps P (update_account m actor_id account_id input)
  unfolding update_account
  update_account-Keeps m actor_id account_id input =
      search (keeps_rules, st.audit, write_patch-Keeps, guard_offline-Keeps) depth 16

  pub delete_account-Keeps :
      (m : Moment) (actor_id account_id : String) → Keeps P (delete_account m actor_id account_id)
  unfolding delete_account
  delete_account-Keeps m actor_id account_id =
      search (keeps_rules, st.audit, st.removal, st.removal) depth 14
