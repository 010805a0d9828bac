-- ===== src/Accounts/Blobs/Frame.antt =====
-- What the audit log and a new blob in an account's row keep, the blob operations keep.
use laap.Base.{Option, String, ℕ}
use laap.Accounts.Blobs.{
  delete_account_session_blob, get_account_session_blob, reveal, save_account_session_blob,
  set_blob,
}
use laap.Audit.{add_audit}
use laap.Db.{Moment}
use laap.Exec.Keeps.{Keeps, keeps_rules}
use laap.Schema.{Db, Payload}
use laap.SecretBox.{Cipher, Decrypted, failed, legacy, opened}

pub record BlobFrame (P : Db → Type 0) : Type 0 where
  pub audit :
      (m : Moment) (actor_id action entity_type entity_id : String) (payload : Payload)
      → Keeps P (add_audit m actor_id action entity_type entity_id payload)
  pub blob :
      (now : ℕ) (account_id : String) (blob : Option String)
      → Keeps P (set_blob now account_id blob)

module _ {P : Db → Type 0} (frame : BlobFrame P) where
  pub save_account_session_blob-Keeps :
      (cipher : Cipher) (vault_key : String) (m : Moment)
      (actor_id account_id session_blob : String)
      → Keeps P (save_account_session_blob cipher vault_key m actor_id account_id session_blob)
  unfolding save_account_session_blob
  save_account_session_blob-Keeps cipher vault_key m actor_id account_id session_blob =
      search (keeps_rules, frame.audit, frame.blob) depth 12

  reveal-Keeps :
      (cipher : Cipher) (vault_key : String) (m : Moment) (account_id : String) (d : Decrypted)
      → Keeps P (reveal cipher vault_key m account_id d)
  unfolding reveal
  reveal-Keeps cipher vault_key m account_id (legacy value) = search (keeps_rules, frame.blob)
  reveal-Keeps cipher vault_key m account_id (opened value) = search keeps_rules
  reveal-Keeps cipher vault_key m account_id (failed message) = search keeps_rules

  pub get_account_session_blob-Keeps :
      (cipher : Cipher) (vault_key : String) (m : Moment) (user_id session_id : String)
      → Keeps P (get_account_session_blob cipher vault_key m user_id session_id)
  unfolding get_account_session_blob
  get_account_session_blob-Keeps cipher vault_key m user_id session_id =
      search (keeps_rules, reveal-Keeps) depth 12

  pub delete_account_session_blob-Keeps :
      (m : Moment) (actor_id account_id : String)
      → Keeps P (delete_account_session_blob m actor_id account_id)
  unfolding delete_account_session_blob
  delete_account_session_blob-Keeps m actor_id account_id =
      search (keeps_rules, frame.audit, frame.blob) depth 12
