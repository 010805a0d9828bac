-- ===== src/Leases/Acquire.antt =====
-- A lease that is granted is backed: the guards of `acquireLease` still hold where the row is written.
use laap.Base.{All-append, Option, String, [], arith, is_some, refl, true, ◌==◌, ◌∷◌, ◌≡◌}
use laap.Audit.{add_audit}
use laap.Base.Rows.{All-update}
use laap.Db.{Moment, insert_session, update_sessions}
use laap.Db.Queries.{account_by_id, authorized_device, live_session_of}
use laap.Db.Writes.{write_sessions_after}
use laap.Exec.{after, ◌>>=◌}
use laap.Exec.Keeps.{Keeps, keeps_rules}
use laap.Leases.{
  Challenge, acquire_lease, claim_account, close_session, closed, is_open, new_session,
  request_lease,
}
use laap.Leases.Backed.{AllBacked, AllBacked-frame}
use laap.Leases.Frame.{Frame, claim_account-Keeps, reap_stale_sessions-Keeps}
use laap.Schema.{Db, Session}

-- The account is open and the device in force, beside the invariant.
record Ready (user_id account_id device_id : String) (db : Db) : Type 0 where
  pub backed : AllBacked db
  pub open_account : is_open (account_by_id account_id db) ≡ true
  pub device : is_some (authorized_device device_id user_id db) ≡ true

module _ (user_id account_id device_id : String) where
  Ready-frame : Frame (Ready user_id account_id device_id)
  unfolding add_audit close_session update_sessions
  Ready-frame = record {
    audit = λ m actor action type id payload. record {
      at = λ db h. record {
        backed = record { rows = h.backed.rows };
        open_account = h.open_account;
        device = h.device;
      };
    };
    close = λ now status reason id over. record {
      at = λ db h. write_sessions_after (Ready user_id account_id device_id) db h _ (record {
        backed = record {
          rows =
              All-update _ (λ s. s.id == id) (closed now status reason) (λ s _ _. rw over)
                db.sessions h.backed.rows;
        };
        open_account = h.open_account;
        device = h.device;
      });
    };
  }

  insert_session-Ready :
      (m : Moment)
      → Keeps
          (Ready user_id account_id device_id)
          (insert_session (new_session m user_id account_id device_id))
  unfolding insert_session
  insert_session-Ready m = record {
    at = λ db h. write_sessions_after (Ready user_id account_id device_id) db h _ (record {
      backed = record {
        rows =
            All-append _ db.sessions (new_session m user_id account_id device_id ∷ []) h.backed.rows
              (rw (h.open_account, h.device) refl, tt);
      };
      open_account = h.open_account;
      device = h.device;
    });
  }

  claim_account-Ready :
      (m : Moment) (options : Challenge) (active : Option Session) (db : Db)
      → AllBacked db
      → is_open (account_by_id account_id db) ≡ true
      → is_some (authorized_device device_id user_id db) ≡ true
      → AllBacked (after (claim_account m user_id account_id device_id options active db))
  claim_account-Ready m options active db h open_account device =
      ((claim_account-Keeps Ready-frame m user_id account_id device_id options active
          (insert_session-Ready m)).at
        db (record { backed = h; open_account = open_account; device = device })).backed

  request_lease-AllBacked :
      (m : Moment) (options : Challenge)
      → Keeps AllBacked (request_lease m user_id account_id device_id options)
  unfolding request_lease ◌>>=◌
  request_lease-AllBacked m options = record {
    at = λ db h. ground (arith, claim_account-Ready m options (live_session_of account_id db) db h);
  }

pub acquire_lease-AllBacked :
    (m : Moment) (user_id account_id device_id : String) (options : Challenge)
    → Keeps AllBacked (acquire_lease m user_id account_id device_id options)
unfolding acquire_lease
acquire_lease-AllBacked m user_id account_id device_id options =
    search (keeps_rules, reap_stale_sessions-Keeps AllBacked-frame, request_lease-AllBacked)
