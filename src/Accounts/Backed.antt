-- ===== src/Accounts/Backed.antt =====
-- The account service takes no account from the holder of a lease.
use laap.Base.{
  All, Bool, List, Option, Option-cases, String, [], ap, arith, false, inl, inr, refl, true,
  true-ne-false, ℕ, ◌++◌, ◌==◌, ◌∷◌, ◌≡◌,
}
use laap.Accounts.{AccountInput, create_account}
use laap.Accounts.Blobs.{set_blob}
use laap.Accounts.Blobs.Frame.{BlobFrame}
use laap.Base.Keys.{find_where-update}
use laap.Base.Rows.{find_where, find_where-append_old, update_where}
use laap.Db.{Moment, insert_account, update_accounts}
use laap.Db.Queries.{live_on_account}
use laap.Db.Writes.{write_accounts_after}
use laap.Exec.Keeps.{Keeps, keeps_rules}
use laap.Leases.{is_open}
use laap.Leases.Backed.{AllBacked, accounts-AllBacked, add_audit-AllBacked}
use laap.Schema.{Account, Db}
use laap.Types.{is_available}

is_open-append :
    (p : Account → Bool) (xs : List Account) (a : Account)
    → is_open (find_where p xs) ≡ true
    → is_open (find_where p (xs ++ a ∷ [])) ≡ true
is_open-append p xs a h = elim (Option-cases (find_where p xs)) [
  | inl missing ↦ absurd (true-ne-false h (rw missing))
  | inr (b, found) ↦ rw (find_where-append_old p xs a b found) (rw found at h)
]

insert_account-AllBacked : (row : Account) → Keeps AllBacked (insert_account row)
unfolding insert_account
insert_account-AllBacked row = record {
  at = λ db h. write_accounts_after AllBacked db h _ (
      accounts-AllBacked db (db.accounts ++ row ∷ [])
        (λ id. is_open-append (λ a. a.id == id) db.accounts row) h);
}

is_open-update :
    (p q : Account → Bool) (f : Account → Account)
    → ((a : Account) → p (f a) ≡ p a)
    → ((a : Account) → is_available a.status ≡ true → is_available (f a).status ≡ true)
    → (xs : List Account) → is_open (find_where p xs) ≡ true
    → is_open (find_where p (update_where q f xs)) ≡ true
is_open-update p q f keep open_ xs h = elim (Option-cases (find_where p xs)) [
  | inl missing ↦ absurd (true-ne-false h (rw missing))
  | inr (b, found) ↦
      rw (find_where-update p q f keep xs, found)
        (let k : is_available b.status ≡ true = rw found at h in ground (arith, open_ b k))
]

-- A write that closes no account.
update_accounts-AllBacked :
    (p : Account → Bool) (f : Account → Account)
    → ((a : Account) → (f a).id ≡ a.id)
    → ((a : Account) → is_available a.status ≡ true → is_available (f a).status ≡ true)
    → Keeps AllBacked (update_accounts p f)
unfolding update_accounts
update_accounts-AllBacked p f same_id open_ = record {
  at = λ db h. write_accounts_after AllBacked db h _ (
      accounts-AllBacked db (update_where p f db.accounts)
        (λ id.
          is_open-update (λ a. a.id == id) p f (λ a. ap (λ (x : String). x == id) (same_id a)) open_
            db.accounts)
        h);
}

pub create_account-AllBacked :
    (m : Moment) (actor_id : String) (input : AccountInput)
    → Keeps AllBacked (create_account m actor_id input)
unfolding create_account
create_account-AllBacked m actor_id input =
    search (keeps_rules, add_audit-AllBacked, insert_account-AllBacked) depth 12

-- A change of other columns.
set_blob-AllBacked :
    (now : ℕ) (account_id : String) (blob : Option String)
    → Keeps AllBacked (set_blob now account_id blob)
unfolding set_blob
set_blob-AllBacked now account_id blob =
    update_accounts-AllBacked (λ a. a.id == account_id)
      (λ a. record a { session_blob = blob; updated_at = now }) (λ a. refl) (λ a k. k)

pub AllBacked-blobs : BlobFrame AllBacked
AllBacked-blobs = record { audit = add_audit-AllBacked; blob = set_blob-AllBacked }

-- The account has no live session: a lookup by another id is all that a live session asks.
abbrev IsIdle : String → Db → Type 0
IsIdle account_id db = All (λ s. live_on_account account_id s ≡ false) db.sessions
