-- ===== src/Statements.antt =====
-- An invariant that every statement of the services keeps, but for those that rewrite a user: what
pub mod WellFormed
pub mod Logged
use laap.Base.{Bool, List, String, [], ◌++◌, ◌==◌, ◌∷◌}
use laap.Accounts.{remove_account}
use laap.Accounts.Blobs.{set_blob}
use laap.Accounts.Blobs.Frame.{BlobFrame}
use laap.Audit.{add_audit}
use laap.Db.{
  Moment, insert_account, insert_assignment, insert_device, insert_session, insert_user,
  update_accounts, update_assignments, update_devices, update_sessions,
}
use laap.Db.Writes.{
  write_accounts_after, write_assignments_after, write_devices_after, write_sessions_after,
  write_users_after,
}
use laap.Exec.{M}
use laap.Exec.Keeps.{Keeps}
use laap.Leases.{close_session, closed}
use laap.Leases.Frame.{Frame}
use laap.Schema.{Account, Assignment, Db, Device, Payload, Session, User}

-- each service then keeps is in the `Statements` module below it.

pub record Statements (P : Db → Type 0) : Type 0 where
  pub audit :
      (m : Moment) (actor_id action entity_type entity_id : String) (payload : Payload)
      → Keeps P (add_audit m actor_id action entity_type entity_id payload)
  pub user : (row : User) → Keeps P (insert_user row)
  pub account : (row : Account) → Keeps P (insert_account row)
  pub accounts : (p : Account → Bool) (f : Account → Account) → Keeps P (update_accounts p f)
  pub removal : (account_id : String) → Keeps P (remove_account account_id)
  pub assignment : (row : Assignment) → Keeps P (insert_assignment row)
  pub assignments :
      (p : Assignment → Bool) (f : Assignment → Assignment) → Keeps P (update_assignments p f)
  pub device : (row : Device) → Keeps P (insert_device row)
  pub devices : (p : Device → Bool) (f : Device → Device) → Keeps P (update_devices p f)
  pub session : (row : Session) → Keeps P (insert_session row)
  pub sessions : (p : Session → Bool) (f : Session → Session) → Keeps P (update_sessions p f)

module _ {P : Db → Type 0} (st : Statements P) where
  pub statements-Frame : Frame P
  unfolding close_session
  statements-Frame = record {
    audit = st.audit;
    close = λ now status reason id _. st.sessions (λ s. s.id == id) (closed now status reason);
  }

  pub statements-BlobFrame : BlobFrame P
  unfolding set_blob
  statements-BlobFrame = record {
    audit = st.audit;
    blob = λ now account_id blob.
        st.accounts (λ a. a.id == account_id)
          (λ a. record a { session_blob = blob; updated_at = now });
  }

Keeps-and :
    {A : Type 0} {P Q : Db → Type 0} {m : M A} → Keeps P m → Keeps Q m → Keeps (λ db. P db × Q db) m
Keeps-and k l = record { at = λ db (p, q). (k.at db p, l.at db q) }

pub statements-and :
    {P Q : Db → Type 0} → Statements P → Statements Q → Statements (λ db. P db × Q db)
statements-and s t = record {
  audit = λ m a b c d e. Keeps-and (s.audit m a b c d e) (t.audit m a b c d e);
  user = λ row. Keeps-and (s.user row) (t.user row);
  account = λ row. Keeps-and (s.account row) (t.account row);
  accounts = λ p f. Keeps-and (s.accounts p f) (t.accounts p f);
  removal = λ id. Keeps-and (s.removal id) (t.removal id);
  assignment = λ row. Keeps-and (s.assignment row) (t.assignment row);
  assignments = λ p f. Keeps-and (s.assignments p f) (t.assignments p f);
  device = λ row. Keeps-and (s.device row) (t.device row);
  devices = λ p f. Keeps-and (s.devices p f) (t.devices p f);
  session = λ row. Keeps-and (s.session row) (t.session row);
  sessions = λ p f. Keeps-and (s.sessions p f) (t.sessions p f);
}

-- What reads the users and nothing else.
pub statements_of_users :
    (P : List User → Type 0)
    → ((row : User) (users : List User) → P users → P (users ++ row ∷ []))
    → Statements (λ db. P db.users)
unfolding insert_user insert_account update_accounts remove_account insert_assignment
    update_assignments insert_device update_devices insert_session update_sessions add_audit
statements_of_users P grow = record {
  audit = λ m a b c d e. record { at = λ db h. h };
  user = λ row. record {
    at = λ db h. write_users_after (λ db. P db.users) db h _ (grow row db.users h);
  };
  account = λ row. record { at = λ db h. write_accounts_after (λ db. P db.users) db h _ h };
  accounts = λ p f. record { at = λ db h. write_accounts_after (λ db. P db.users) db h _ h };
  removal = λ id. record { at = λ db h. h };
  assignment = λ row. record { at = λ db h. write_assignments_after (λ db. P db.users) db h _ h };
  assignments = λ p f. record { at = λ db h. write_assignments_after (λ db. P db.users) db h _ h };
  device = λ row. record { at = λ db h. write_devices_after (λ db. P db.users) db h _ h };
  devices = λ p f. record { at = λ db h. write_devices_after (λ db. P db.users) db h _ h };
  session = λ row. record { at = λ db h. write_sessions_after (λ db. P db.users) db h _ h };
  sessions = λ p f. record { at = λ db h. write_sessions_after (λ db. P db.users) db h _ h };
}
