-- ===== src/Accounts/Patched.antt =====
-- What `updateAccount` makes of the row whose status it is given.
use laap.Base.{
  ◌==◌, refl, Bool-cases, Option-cases, String, arith, inl, inr, length, ltb, some, true, ◌≡◌,
}
use laap.Base.Keys.{find_where-update}
use laap.Base.Rows.{find_where-holds, update_where}
use laap.Accounts.{
  when, AccountPatch, external_id_taken, patched, patched_fields, takes_offline, update_account,
  write_patch,
}
use laap.Accounts.Statements.{guard_offline-Keeps}
use laap.Db.{Moment, update_accounts, write_accounts}
use laap.Db.Queries.{account_by_id}
use laap.Exec.{when}
use laap.Exec.Yields.{
  Yields, Yields-bind, Yields-ensure, Yields-gets, Yields-of_Keeps, Yields-or_throw,
  Yields-transaction,
}
use laap.Leases.Frame.{Frame, frame_of}
use laap.Schema.{Account, Db, accounts_ok}
use laap.Types.{AccountStatus}

-- the account is there, with this status
abbrev pub HasStatus : String → AccountStatus → Db → Type 0
HasStatus account_id status db =
    (a : Account) × (account_by_id account_id db ≡ some a) × (a.status ≡ status)

HasStatus-frame :
    (account_id : String) (status : AccountStatus) → Frame (HasStatus account_id status)
HasStatus-frame account_id status = frame_of (HasStatus account_id status) (λ db rows logs h. h)

has_field :
    (input : AccountPatch) (status : AccountStatus)
    → input.status ≡ some status
    → ltb 0 (length (patched_fields input)) ≡ true
has_field input status e = elim (Option-cases input.display_name) [
  | inl absent ↦ elim (Option-cases input.external_id) [
    | inl absent' ↦ elim (Option-cases input.region) [
      | inl absent'' ↦ rw (absent, absent', absent'', e) refl
      | inr (c, given) ↦ rw (absent, absent', given, e) refl
    ]
    | inr (b, given) ↦ rw (absent, given) (ground arith)
  ]
  | inr (a, given) ↦ rw given (ground arith)
]

write_patch-HasStatus :
    (m : Moment) (account_id : String) (input : AccountPatch) (status : AccountStatus) (db : Db)
    (current : Account)
    → input.status ≡ some status
    → account_by_id account_id db ≡ some current
    → Yields (λ _. HasStatus account_id status) (write_patch m account_id input db)
unfolding write_patch update_accounts when write_accounts
write_patch-HasStatus m account_id input status db current given found =
    let patch = patched m.now input in
    let rows = update_where (λ a. a.id == account_id) patch db.accounts in
    let hit = find_where-holds (λ a. a.id == account_id) db.accounts current found in
    let moved =
      find_where-update (λ a. a.id == account_id) (λ a. a.id == account_id) patch (λ a. refl)
        db.accounts in
    rw (has_field input status given) (elim (Bool-cases (accounts_ok rows)) [
      | inl valid ↦ rw valid (patch current, rw (moved, found, hit) refl, rw given refl)
      | inr clash ↦ rw clash tt
    ])

pub update_account-HasStatus :
    (m : Moment) (actor_id account_id : String) (input : AccountPatch) (status : AccountStatus)
    (db : Db)
    → input.status ≡ some status
    → Yields (λ _. HasStatus account_id status) (update_account m actor_id account_id input db)
unfolding update_account
update_account-HasStatus m actor_id account_id input status db given =
    let Q = HasStatus account_id status in
    Yields-transaction (λ _. Q) _ db
      (Yields-gets _ (account_by_id account_id) _ db (
        Yields-or_throw _ (account_by_id account_id db) _ _ db (λ current found.
          Yields-bind (λ _ d. account_by_id account_id d ≡ some current) _ _ _ db
            (Yields-of_Keeps (λ d. account_by_id account_id d ≡ some current) _
              (guard_offline-Keeps _ account_id (takes_offline input.status current.status)) db
              found)
            (λ _ db1 found1. Yields-gets _ (external_id_taken input.external_id account_id) _ db1 (
              Yields-ensure _ _ _ _ db1 (λ _.
                Yields-bind (λ _. Q) _ _ _ db1
                  (write_patch-HasStatus m account_id input status db1 current given found1)
                  (λ _ db2 h2.
                    Yields-of_Keeps Q _ ((HasStatus-frame account_id status).audit m _ _ _ _ _) db2
                      h2)))))))
