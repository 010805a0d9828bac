-- ===== src/Accounts/Offline.antt =====
-- `updateAccount` and `deleteAccount` against the holder of a lease: the guards on a live session
-- are enough to keep every live session backed.
use mathlib.Core.Path.{subst}
use laap.Base.{
  All, All-weaken, All-zip, Bool-cases, List, Option-cases, String, and-true, arith, eq_iff, false,
  inl, inr, key_apart, length, ltb, refl, some, sym, true, true-ne-false, ℕ, ◌==◌, ◌≡◌,
}
use laap.Accounts.{
  AccountPatch, external_id_taken, guard_offline, patched, patched_fields, takes_offline,
  update_account, write_patch,
}
use laap.Base.Keys.{find_where-update}
use laap.Base.Rows.{find_where, find_where-holds, find_where-none, update_where}
use laap.Db.{Moment, update_accounts}
use laap.Db.Queries.{account_by_id, live_on_account, live_session_of}
use laap.Db.Writes.{write_accounts_after}
use laap.Exec.{after, ensure, when}
use laap.Exec.Keeps.{Keeps}
use laap.Exec.Yields.{
  Keeps-outcome, Yields, Yields-bind, Yields-ensure, Yields-gets, Yields-of_Keeps, Yields-or_throw,
  transaction-after,
}
use laap.Leases.{is_open}
use laap.Leases.Backed.{AllBacked, add_audit-AllBacked, is_backed, is_backed_mono}
use laap.Schema.{Account, Db, Device, Session}
use laap.Types.{is_available, is_live}

-- The account after a patch, for a session that may be on it.
patch_open :
    (now : ℕ) (input : AccountPatch) (account_id x : String) (accounts : List Account)
    (current : Account)
    → find_where (λ a. a.id == account_id) accounts ≡ some current
    → ((x == account_id) ≡ true → is_available (patched now input current).status ≡ true)
    → is_open (find_where (λ a. a.id == x) accounts) ≡ true
    → is_open (
        find_where
          (λ a. a.id == x)
          (update_where (λ a. a.id == account_id) (patched now input) accounts))
      ≡ true
patch_open now input account_id x accounts current found avail h =
    rw
      (find_where-update (λ a. a.id == x) (λ a. a.id == account_id) (patched now input) (λ a. refl)
        accounts)
      (elim (Bool-cases (x == account_id)) [
        | inl same ↦
            let e : x ≡ account_id = (eq_iff x account_id).0 same in
            rw (e, found, find_where-holds (λ a. a.id == account_id) accounts current found)
              (avail same)
        | inr apart ↦ elim (Option-cases (find_where (λ a. a.id == x) accounts)) [
          | inl missing ↦ absurd (true-ne-false h (rw missing))
          | inr (b, hit) ↦
              let here : (b.id == x) ≡ true = find_where-holds (λ a. a.id == x) accounts b hit in
              let other : (b.id == account_id) ≡ false = key_apart b.id x account_id here apart in
              rw (hit, other) (rw hit at h)
        ]
      ])

patch_backed :
    (now : ℕ) (input : AccountPatch) (account_id : String) (accounts : List Account)
    (devices : List Device) (current : Account) (s : Session)
    → find_where (λ a. a.id == account_id) accounts ≡ some current
    → (live_on_account account_id s ≡ true → is_available (patched now input current).status ≡ true)
    → is_backed accounts devices s ≡ true
    → is_backed (update_where (λ a. a.id == account_id) (patched now input) accounts) devices s
      ≡ true
patch_backed now input account_id accounts devices current s found avail h =
    elim (Bool-cases (is_live s.status)) [
      | inl live ↦
          is_backed_mono accounts _ devices devices s
            (patch_open now input account_id s.account_id accounts current found
              (λ k. avail (ground arith)))
            (λ d. d) h
      | inr dead ↦ ground arith
    ]

-- The patch keeps the account open for those who hold it, by the guard.
holder_kept :
    (now : ℕ) (input : AccountPatch) (account_id : String) (accounts : List Account)
    (devices : List Device) (current : Account) (s : Session)
    → find_where (λ a. a.id == account_id) accounts ≡ some current
    → takes_offline input.status current.status ≡ false
    → is_backed accounts devices s ≡ true
    → live_on_account account_id s ≡ true
    → is_available (patched now input current).status ≡ true
holder_kept now input account_id accounts devices current s found stays h on =
    let e : s.account_id ≡ account_id = (eq_iff s.account_id account_id).0 (and-true _ _ on).0 in
    let same : find_where (λ a. a.id == s.account_id) accounts ≡ some current =
      subst (λ (x : String). find_where (λ a. a.id == x) accounts ≡ some current) (sym e) found in
    let held : is_open (find_where (λ a. a.id == s.account_id) accounts) ≡ true = ground arith in
    let available : is_available current.status ≡ true = rw same at held in ground arith

-- Whoever holds the account finds it available after the patch.
abbrev Steady : ℕ → AccountPatch → String → Account → Db → Type 0
Steady now input account_id current db =
    All
      (λ s.
        live_on_account account_id s ≡ true
        → is_available (patched now input current).status ≡ true)
      db.sessions

write_patch-AllBacked :
    (m : Moment) (account_id : String) (input : AccountPatch) (db : Db) (current : Account)
    → AllBacked db
    → account_by_id account_id db ≡ some current
    → Steady m.now input account_id current db
    → AllBacked (after (write_patch m account_id input db))
unfolding write_patch update_accounts when
write_patch-AllBacked m account_id input db current h found steady =
    let new : AllBacked
        (after (update_accounts (λ a. a.id == account_id) (patched m.now input) db)) =
      write_accounts_after AllBacked db h _ (record {
        rows =
            All-zip {P = λ s. is_backed db.accounts db.devices s ≡ true}
              (λ s k avail.
                patch_backed m.now input account_id db.accounts db.devices current s found avail k)
              db.sessions h.rows steady;
      }) in
    elim (Bool-cases (ltb 0 (length (patched_fields input)))) [
      | inl some_field ↦ rw some_field new
      | inr nothing ↦ rw nothing h
    ]

guard_offline-Steady :
    (now : ℕ) (account_id : String) (input : AccountPatch) (current : Account) (db : Db)
    → AllBacked db
    → account_by_id account_id db ≡ some current
    → Yields
        (λ _ db'.
          AllBacked db'
          × (account_by_id account_id db' ≡ some current)
          × Steady now input account_id current db')
        (guard_offline account_id (takes_offline input.status current.status) db)
unfolding guard_offline when ensure
guard_offline-Steady now account_id input current db h found =
    elim (Bool-cases (takes_offline input.status current.status)) [
      | inl leaves ↦ rw leaves (
          Yields-gets _ (live_session_of account_id) _ db
            (elim (Option-cases (live_session_of account_id db)) [
              | inl idle ↦ rw idle (
                h,
                found,
                All-weaken {P = λ s. live_on_account account_id s ≡ false}
                    (λ s apart on. absurd (true-ne-false on apart)) db.sessions
                    (find_where-none (live_on_account account_id) db.sessions idle),
              )
              | inr (s, busy) ↦ rw busy tt
            ]))
      | inr stays ↦ rw stays (
        h,
        found,
        All-weaken {P = λ s. is_backed db.accounts db.devices s ≡ true}
            (λ s k. holder_kept now input account_id db.accounts db.devices current s found stays k)
            db.sessions h.rows,
      )
    ]

pub update_account-AllBacked :
    (m : Moment) (actor_id account_id : String) (input : AccountPatch)
    → Keeps AllBacked (update_account m actor_id account_id input)
unfolding update_account
update_account-AllBacked m actor_id account_id input = record {
  at = λ db h. transaction-after AllBacked _ db h (
      Yields-gets _ (account_by_id account_id) _ db (
        Yields-or_throw _ (account_by_id account_id db) _ _ db (λ current found.
          Yields-bind _ _ _ _ db (guard_offline-Steady m.now account_id input current db h found)
            (λ _ db' (h', found', steady).
              Yields-gets _ (external_id_taken input.external_id account_id) _ db' (
                Yields-ensure _ _ _ _ db' (λ _.
                  Yields-bind (λ _. AllBacked) _ _ _ db'
                    (Keeps-outcome AllBacked (write_patch m account_id input db')
                      (write_patch-AllBacked m account_id input db' current h' found' steady))
                    (λ _ db2 h2.
                      Yields-of_Keeps AllBacked _ (add_audit-AllBacked m _ _ _ _ _) db2 h2)))))));
}
