-- ===== src/Accounts.antt =====
-- SqliteAccountService (apps/api/src/services/sqlite/account.service.ts): the account pool.
pub mod Blobs
pub mod Backed
pub mod Offline
pub mod Patched
pub mod Removal
pub mod WellFormed
pub mod Statements
use laap.Base.{
  Bool, List, Option, String, [], false, get_or, if◌then◌else◌, is_some, length, ltb, none, not,
  some, ℕ, ◌&&◌, ◌==◌, ◌∷◌,
}
use laap.Audit.{add_audit}
use laap.Base.Rows.{delete_where, exists_where}
use laap.Db.{Moment, insert_account, update_accounts}
use laap.Db.Queries.{account_by_id, live_session_of}
use laap.Exec.{M, ensure, gets, ok, or_throw, pure, service_error, transaction, when, ◌>>=◌, ◌>>◌}
use laap.Schema.{Account, Db, str, strs}
use laap.Types.{AccountStatus, account_status_eq, is_available}

-- the fields of `accountCreateSchema`
pub record AccountInput : Type 0 where
  pub display_name : String
  pub external_id : String
  pub region : String
  pub status : AccountStatus

-- the fields of `accountUpdateSchema`; `none` for undefined
pub record AccountPatch : Type 0 where
  pub display_name : Option String
  pub external_id : Option String
  pub region : Option String
  pub status : Option AccountStatus

abbrev pub new_account : Moment → AccountInput → Account
new_account m input = record {
  id = m.uuid;
  provider = "riot";
  external_id = input.external_id;
  display_name = input.display_name;
  region = input.region;
  status = input.status;
  session_blob = none;
  metadata_json = "{}";
  created_at = m.now;
  updated_at = m.now;
}

pub create_account : Moment → String → AccountInput → M String
create_account m actor_id input = transaction (do
  taken ← gets (λ db. exists_where (λ a. a.external_id == input.external_id) db.accounts)
  ensure (not taken) (service_error "ACCOUNT_EXISTS" 409)
  insert_account (new_account m input)
  add_audit m actor_id "ACCOUNT_CREATED" "accounts" m.uuid
      (("displayName", str input.display_name) ∷ ("region", str input.region) ∷ [])
  pure m.uuid)

-- `input.status && input.status !== 'available' && input.status !== current.status`
abbrev pub takes_offline : Option AccountStatus → AccountStatus → Bool
takes_offline none current = false
takes_offline (some status) current =
    not (is_available status) && not (account_status_eq status current)

-- `input.externalId && … WHERE external_id = ? AND id <> ?`
abbrev pub external_id_taken : Option String → String → Db → Bool
external_id_taken none account_id db = false
external_id_taken (some external_id) account_id db =
    not (external_id == "")
    && exists_where (λ a. a.external_id == external_id && not (a.id == account_id)) db.accounts

abbrev named : {A : Type 0} → String → Option A → List String → List String
named key none rest = rest
named key (some a) rest = key ∷ rest

-- the keys of the defined entries of the input
abbrev pub patched_fields : AccountPatch → List String
patched_fields input = named "displayName" input.display_name (
    named "externalId" input.external_id
      (named "region" input.region (named "status" input.status [])))

abbrev pub patched : ℕ → AccountPatch → Account → Account
patched now input a = record a {
  display_name = get_or input.display_name a.display_name;
  external_id = get_or input.external_id a.external_id;
  region = get_or input.region a.region;
  status = get_or input.status a.status;
  updated_at = now;
}

-- `if (fields.length)`
unfoldable pub write_patch : Moment → String → AccountPatch → M (Unit {0})
write_patch m account_id input =
    when (ltb 0 (length (patched_fields input)))
      (update_accounts (λ a. a.id == account_id) (patched m.now input))

-- the guard on a status that takes the account from its holder
unfoldable pub guard_offline : String → Bool → M (Unit {0})
guard_offline account_id offline = when offline (do
  active ← gets (live_session_of account_id)
  ensure (not (is_some active)) (service_error "ACCOUNT_BUSY" 409))

unfoldable pub update_account : Moment → String → String → AccountPatch → M (Unit {0})
update_account m actor_id account_id input = transaction (do
  found ← gets (account_by_id account_id)
  current ← or_throw found (service_error "ACCOUNT_NOT_FOUND" 404)
  guard_offline account_id (takes_offline input.status current.status)
  taken ← gets (external_id_taken input.external_id account_id)
  ensure (not taken) (service_error "ACCOUNT_EXISTS" 409)
  write_patch m account_id input
  add_audit m actor_id "ACCOUNT_UPDATED" "accounts" account_id
      (("fields", strs (patched_fields input)) ∷ []))

-- DELETE FROM accounts WHERE id = ?, with ON DELETE CASCADE where the pragma is on
unfoldable pub remove_account : String → M (Unit {0})
remove_account account_id db = ok tt (record db {
  accounts = delete_where (λ a. a.id == account_id) db.accounts;
  assignments =
      if db.foreign_keys
      then delete_where (λ a. a.account_id == account_id) db.assignments
      else db.assignments;
  sessions =
      if db.foreign_keys
      then delete_where (λ s. s.account_id == account_id) db.sessions
      else db.sessions;
})

pub delete_account : Moment → String → String → M (Unit {0})
delete_account m actor_id account_id = transaction (do
  found ← gets (account_by_id account_id)
  ensure (is_some found) (service_error "ACCOUNT_NOT_FOUND" 404)
  active ← gets (live_session_of account_id)
  ensure (not (is_some active)) (service_error "ACCOUNT_BUSY" 409)
  remove_account account_id
  add_audit m actor_id "ACCOUNT_DELETED" "accounts" account_id [])
