-- ===== src/Accounts/Removal.antt =====
-- `deleteAccount` against the holder of a lease: only an idle account is deleted.
use laap.Base.{
  All, All-zip, Bool, Bool-cases, List, Option, String, arith, false, if◌then◌else◌, inl, inr,
  is_some, key_apart, none, not, refl, some, true, ◌==◌, ◌≡◌,
}
use laap.Accounts.{delete_account, remove_account}
use laap.Base.Keys.{find_where-delete_other}
use laap.Base.Rows.{All-delete, delete_where, find_where-none}
use laap.Db.{Moment}
use laap.Db.Queries.{account_by_id, live_on_account, live_session_of}
use laap.Exec.{after}
use laap.Exec.Keeps.{Keeps}
use laap.Exec.Yields.{
  Keeps-outcome, Yields-bind, Yields-ensure, Yields-gets, Yields-of_Keeps, transaction-after,
}
use laap.Leases.Backed.{AllBacked, add_audit-AllBacked, is_backed, is_backed_mono}
use laap.Schema.{Account, Db, Device, Session}
use laap.Types.{is_live}

-- A session that does not hold the account does not miss it.
removed_backed :
    (account_id : String) (accounts : List Account) (devices : List Device) (s : Session)
    → is_backed accounts devices s ≡ true
    → live_on_account account_id s ≡ false
    → is_backed (delete_where (λ a. a.id == account_id) accounts) devices s ≡ true
removed_backed account_id accounts devices s h idle = elim (Bool-cases (is_live s.status)) [
  | inl live ↦
      let apart : (s.account_id == account_id) ≡ false = ground arith in
      is_backed_mono accounts _ devices devices s
        (λ k.
          rw
            (find_where-delete_other (λ a. a.id == s.account_id) (λ a. a.id == account_id)
              (λ a here. key_apart a.id s.account_id account_id here apart) accounts)
            k)
        (λ d. d) h
  | inr dead ↦ ground arith
]

All-cascade :
    (P : Session → Type 0) (cascade : Bool) (p : Session → Bool) (rows : List Session)
    → All P rows
    → All P (if cascade then delete_where p rows else rows)
All-cascade P false p rows h = h
All-cascade P true p rows h = All-delete _ p rows h

remove_account-AllBacked :
    (account_id : String) (db : Db)
    → AllBacked db
    → live_session_of account_id db ≡ none
    → AllBacked (after (remove_account account_id db))
unfolding remove_account
remove_account-AllBacked account_id db h idle = record {
  rows = All-cascade _ db.foreign_keys _ db.sessions (
      All-zip {P = λ s. is_backed db.accounts db.devices s ≡ true}
        (λ s. removed_backed account_id db.accounts db.devices s) db.sessions h.rows
        (find_where-none (live_on_account account_id) db.sessions idle));
}

not_some : {A : Type 0} (o : Option A) → not (is_some o) ≡ true → o ≡ none
not_some none h = refl
not_some (some a) h = cc

pub delete_account-AllBacked :
    (m : Moment) (actor_id account_id : String)
    → Keeps AllBacked (delete_account m actor_id account_id)
unfolding delete_account
delete_account-AllBacked m actor_id account_id = record {
  at = λ db h. transaction-after AllBacked _ db h (
      Yields-gets _ (account_by_id account_id) _ db (
        Yields-ensure _ _ _ _ db (λ _. Yields-gets _ (live_session_of account_id) _ db (
          Yields-ensure _ _ _ _ db (λ idle.
            Yields-bind (λ _. AllBacked) _ _ _ db
              (Keeps-outcome AllBacked (remove_account account_id db)
                (remove_account-AllBacked account_id db h (not_some _ idle)))
              (λ _ db' h'.
                Yields-of_Keeps AllBacked _ (add_audit-AllBacked m _ _ _ _ _) db' h'))))));
}
