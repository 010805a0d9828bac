-- ===== src/Accounts/Blobs.antt =====
-- The session blobs of SqliteAccountService (apps/api/src/services/sqlite/account.service.ts), which
-- the vault key seals.
pub mod Frame
pub mod RoundTrip
mod Tests
use Prim.Native.String.{◌++◌}
use laap.Base.{Option, String, [], if◌then◌else◌, is_some, none, some, ℕ, ◌&&◌, ◌==◌}
use laap.Audit.{add_audit}
use laap.Base.Rows.{find_where}
use laap.Db.{Moment, update_accounts}
use laap.Db.Queries.{account_by_id}
use laap.Exec.{
  M, ensure, gets, or_throw, plain, pure, service_error, throw, transaction, ◌>>=◌, ◌>>◌,
}
use laap.Leases.{is_text}
use laap.Schema.{Account, Db, Session}
use laap.SecretBox.{
  Cipher, Decrypted, decrypt_secret, encrypt_secret, failed, key_error, legacy, opened,
}
use laap.Types.{is_running}

-- `account:${accountId}`
abbrev pub blob_context : String → String
blob_context account_id = "account:" ++ account_id

-- `encryptSecret` throws a plain `Error`
abbrev pub sealed : Cipher → String → String → String → M String
sealed cipher vault_key account_id blob =
    or_throw (encrypt_secret cipher blob vault_key (blob_context account_id)) (plain key_error)

-- SET session_blob = ?, updated_at = ? WHERE id = ?
unfoldable pub set_blob : ℕ → String → Option String → M (Unit {0})
set_blob now account_id blob =
    update_accounts (λ a. a.id == account_id)
      (λ a. record a { session_blob = blob; updated_at = now })

pub save_account_session_blob : Cipher → String → Moment → String → String → String → M (Unit {0})
save_account_session_blob cipher vault_key m actor_id account_id session_blob = transaction (do
  found ← gets (account_by_id account_id)
  ensure (is_some found) (service_error "ACCOUNT_NOT_FOUND" 404)
  stored ← sealed cipher vault_key account_id session_blob
  set_blob m.now account_id (some stored)
  add_audit m actor_id "SESSION_BLOB_UPDATED" "accounts" account_id [])

-- … WHERE id = ? AND user_id = ? AND status IN ('starting', 'active')
abbrev pub running_session : String → String → Db → Option Session
running_session session_id user_id db =
    find_where (λ s. s.id == session_id && (s.user_id == user_id && is_running s.status))
      db.sessions

-- `!account || !account.session_blob`
abbrev pub blob_of : Option Account → Option String
blob_of none = none
blob_of (some a) = if is_text a.session_blob then a.session_blob else none

-- A blob from before the vault is sealed on its way out.
reveal : Cipher → String → Moment → String → Decrypted → M String
reveal cipher vault_key m account_id (legacy value) = do
  stored ← sealed cipher vault_key account_id value
  set_blob m.now account_id (some stored)
  pure value
reveal cipher vault_key m account_id (opened value) = pure value
reveal cipher vault_key m account_id (failed message) = throw (plain message)

pub get_account_session_blob : Cipher → String → Moment → String → String → M String
get_account_session_blob cipher vault_key m user_id session_id = do
  found ← gets (running_session session_id user_id)
  s ← or_throw found (service_error "SESSION_NOT_FOUND" 404)
  account ← gets (account_by_id s.account_id)
  stored ← or_throw (blob_of account) (service_error "NO_SESSION_BLOB" 404)
  reveal cipher vault_key m s.account_id
      (decrypt_secret cipher stored vault_key (blob_context s.account_id))

pub delete_account_session_blob : Moment → String → String → M (Unit {0})
delete_account_session_blob m actor_id account_id = transaction (do
  found ← gets (account_by_id account_id)
  ensure (is_some found) (service_error "ACCOUNT_NOT_FOUND" 404)
  set_blob m.now account_id none
  add_audit m actor_id "SESSION_BLOB_DELETED" "accounts" account_id [])
