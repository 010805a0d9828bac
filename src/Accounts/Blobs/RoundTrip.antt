-- ===== src/Accounts/Blobs/RoundTrip.antt =====
-- What `saveAccountSessionBlob` stores, `getAccountSessionBlob` hands out.
use text.Mathlib.Text.{starts_with}
use text.Mathlib.TextEquality.{starts_with_iff}
use laap.Base.{
  Bool-cases, Option, String, [], eq_iff, false, inl, inr, refl, some, true, true-ne-false, ℕ, ◌==◌,
  ◌||◌, ◌≡◌,
}
use laap.Accounts.Blobs.{
  blob_context, get_account_session_blob, reveal, running_session, save_account_session_blob,
  set_blob,
}
use laap.Audit.{add_audit}
use laap.Base.Keys.{distinct_by-update, find_where-update}
use laap.Base.Rows.{find_where-holds, update_where}
use laap.Db.{Moment, update_accounts, write_accounts}
use laap.Db.Queries.{account_by_id}
use laap.Exec.{after, ok, transaction, ◌>>=◌}
use laap.Leases.{is_text}
use laap.Schema.{Account, Db, Session, accounts_ok}
use laap.SecretBox.{Cipher, Sealed, decrypt_secret, encrypt_secret, envelope, key_is_long, opened}
use laap.SecretBox.RoundTrip.{NoColon, decrypt-encrypt}

-- the row with its new blob
abbrev with_blob : ℕ → Option String → Account → Account
with_blob now blob a = record a { session_blob = blob; updated_at = now }

-- the database with the row's new blob
abbrev with_account_blob : ℕ → String → Option String → Db → Db
with_account_blob now account_id blob db = record db {
  accounts = update_where (λ a. a.id == account_id) (with_blob now blob) db.accounts;
}

set_blob-writes :
    (now : ℕ) (account_id : String) (blob : Option String) (db : Db)
    → accounts_ok db.accounts ≡ true
    → set_blob now account_id blob db ≡ ok tt (with_account_blob now account_id blob db)
unfolding set_blob update_accounts write_accounts accounts_ok
set_blob-writes now account_id blob db valid =
    let kept =
      distinct_by-update (λ (a b : Account). a.id == b.id || a.external_id == b.external_id)
        (λ a. a.id == account_id) (with_blob now blob) (λ a b. refl) (λ a b. refl) db.accounts
        valid in
    rw kept refl

-- the round trip of the vault, with the envelope written out
envelope-opens :
    (cipher : Cipher) (value secret context : String)
    → key_is_long secret ≡ true
    → NoColon (cipher.seal secret context value).iv
    → NoColon (cipher.seal secret context value).tag
    → NoColon (cipher.seal secret context value).body
    → cipher.byte_length (cipher.seal secret context value).iv ≡ 12
    → cipher.byte_length (cipher.seal secret context value).tag ≡ 16
    → cipher.unseal secret context (cipher.seal secret context value) ≡ some value
    → (encrypt_secret cipher value secret context
        ≡ some (envelope (cipher.seal secret context value)))
      × (decrypt_secret cipher (envelope (cipher.seal secret context value)) secret context
          ≡ opened value)
unfolding encrypt_secret
envelope-opens cipher value secret context long hi ht hb iv tag back =
    let trip = decrypt-encrypt cipher value secret context long hi ht hb iv tag back in
    let sealed : encrypt_secret cipher value secret context
        ≡ some (envelope (cipher.seal secret context value)) =
      rw long refl in
    let same : trip.0 ≡ envelope (cipher.seal secret context value) = cc in
    (sealed, rw same at trip.2)

nothing_begins : starts_with "" "laap:v1:" ≡ false
nothing_begins = refl

-- an envelope is a text
envelope-is_text : (e : Sealed) → is_text (some (envelope e)) ≡ true
envelope-is_text e =
    let begins : starts_with (envelope e) "laap:v1:" ≡ true =
      (starts_with_iff (envelope e) "laap:v1:").1 (_, refl) in
    elim (Bool-cases (envelope e == "")) [
      | inl blank ↦
          absurd (true-ne-false (rw ((eq_iff (envelope e) "").0 blank) at begins) nothing_begins)
      | inr text ↦ rw text refl
    ]

-- Where the vault key is long enough, the cipher opens what it sealed, with an IV of 12 bytes, a tag
-- of 16 and no colon in base64url, and the keys of the accounts are distinct: for a running session of
-- the user on an account of the pool, `saveAccountSessionBlob` returns, and `getAccountSessionBlob`
-- then returns the blob that was saved and writes nothing.
pub get_account_session_blob-save :
    (cipher : Cipher) (vault_key : String) (m n : Moment)
    (actor_id user_id session_id blob : String) (db : Db) (s : Session) (a : Account)
    → key_is_long vault_key ≡ true
    → NoColon (cipher.seal vault_key (blob_context s.account_id) blob).iv
    → NoColon (cipher.seal vault_key (blob_context s.account_id) blob).tag
    → NoColon (cipher.seal vault_key (blob_context s.account_id) blob).body
    → cipher.byte_length (cipher.seal vault_key (blob_context s.account_id) blob).iv ≡ 12
    → cipher.byte_length (cipher.seal vault_key (blob_context s.account_id) blob).tag ≡ 16
    → cipher.unseal vault_key
        (blob_context s.account_id)
        (cipher.seal vault_key (blob_context s.account_id) blob)
      ≡ some blob
    → accounts_ok db.accounts ≡ true
    → running_session session_id user_id db ≡ some s
    → account_by_id s.account_id db ≡ some a
    → (db' : Db) × (save_account_session_blob cipher vault_key m actor_id s.account_id blob db
        ≡ ok tt db')
      × (get_account_session_blob cipher vault_key n user_id session_id db' ≡ ok blob db')
unfolding save_account_session_blob get_account_session_blob reveal transaction ◌>>=◌ add_audit
get_account_session_blob-save cipher vault_key m n actor_id user_id session_id blob db s a long hi
      ht hb iv tag back valid running known =
    let sealed =
      envelope-opens cipher blob vault_key (blob_context s.account_id) long hi ht hb iv tag back in
    let stored = envelope (cipher.seal vault_key (blob_context s.account_id) blob) in
    let shown = envelope-is_text (cipher.seal vault_key (blob_context s.account_id) blob) in
    let written = set_blob-writes m.now s.account_id (some stored) db valid in
    let found =
      find_where-update (λ a. a.id == s.account_id) (λ a. a.id == s.account_id)
        (with_blob m.now (some stored)) (λ a. refl) db.accounts in
    let hit : (a.id == s.account_id) ≡ true =
      find_where-holds (λ a. a.id == s.account_id) db.accounts a known in
    (
      after (
          add_audit m actor_id "SESSION_BLOB_UPDATED" "accounts" s.account_id []
            (with_account_blob m.now s.account_id (some stored) db)),
      rw (known, sealed.0, written) refl,
      rw (running, found, known, hit, shown, sealed.1) refl,
    )
