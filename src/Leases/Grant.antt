-- ===== src/Leases/Grant.antt =====
-- What `acquireLease` has checked and done when it returns a lease.
use laap.Base.{
  Bool, Bool-cases, Option, String, [], eq_refl, inl, inr, is_some, ltb, none, refl, some, true, ℕ,
  ◌&&◌, ◌++◌, ◌-◌, ◌==◌, ◌||◌, ◌∷◌, ◌≡◌,
}
use laap.Audit.{add_audit}
use laap.Base.Keys.{is_some-append_new, is_some-of_hit}
use laap.Base.Rows.{find_where, find_where-holds}
use laap.Db.{Moment, insert_session, write_sessions}
use laap.Db.Queries.{
  account_by_id, authorized_device, has_admin_role, live_on_account, live_session_of, user_by_id,
}
use laap.Exec.{ok, pure, throw, ◌>>=◌, ◌>>◌}
use laap.Exec.Yields.{
  Yields, Yields-bind, Yields-ensure, Yields-gets, Yields-of_Keeps, Yields-ok, Yields-skip,
  Yields-transaction,
}
use laap.Leases.{
  Challenge, Lease, acquire_lease, active_assignment, claim_account, close_session, is_granted,
  is_open, new_session, request_lease, start_session,
}
use laap.Leases.Frame.{Frame, frame_of, staled}
use laap.Schema.{Db, Session, sessions_ok, str}
use laap.Types.{ReleaseReason, SessionStatus}

abbrev pub is_entitled : ℕ → String → String → Db → Bool
is_entitled now user_id account_id db =
    has_admin_role (user_by_id user_id db)
    || is_granted now (active_assignment account_id user_id db)

-- The conditions on the user, the device and the account.
pub record Entitled (now : ℕ) (user_id account_id device_id : String) (db : Db) : Type 0 where
  pub user : is_entitled now user_id account_id db ≡ true
  pub device : is_some (authorized_device device_id user_id db) ≡ true
  pub account : is_open (account_by_id account_id db) ≡ true

-- a live row of the account, for the user on the device
abbrev pub lease_row : String → String → String → String → Session → Bool
lease_row session_id user_id account_id device_id s =
    s.id == session_id
    && (live_on_account account_id s && (s.user_id == user_id && s.device_id == device_id))

pub record Granted (m : Moment) (user_id account_id device_id : String) (lease : Lease) (db : Db)
    : Type 0 where
  pub entitled : Entitled m.now user_id account_id device_id db
  pub row :
      is_some (find_where (lease_row lease.session_id user_id account_id device_id) db.sessions)
      ≡ true

module _ (m : Moment) (user_id account_id device_id : String) where
  Entitled-frame : Frame (Entitled m.now user_id account_id device_id)
  Entitled-frame =
      frame_of _ λ db rows logs h. record { user = h.user; device = h.device; account = h.account }

  start_session-Granted :
      (options : Challenge) (db : Db)
      → Entitled m.now user_id account_id device_id db
      → Yields
          (Granted m user_id account_id device_id)
          (start_session m user_id account_id device_id options db)
  unfolding start_session ◌>>=◌ insert_session write_sessions add_audit
  start_session-Granted options db h =
      elim (Bool-cases
        (sessions_ok (db.sessions ++ new_session m user_id account_id device_id ∷ []))) [
          | inl kept ↦ rw kept (record {
            entitled = record { user = h.user; device = h.device; account = h.account };
            row =
                is_some-append_new (lease_row m.uuid user_id account_id device_id) db.sessions
                  (new_session m user_id account_id device_id)
                  (rw (eq_refl m.uuid, eq_refl account_id, eq_refl user_id, eq_refl device_id)
                    refl);
          })
          | inr refused ↦ rw refused tt
        ]

  restart_session-Granted :
      (options : Challenge) (active : Session) (db : Db)
      → Entitled m.now user_id account_id device_id db
      → Yields (Granted m user_id account_id device_id) (
          (do
            close_session m.now SessionStatus.stale ReleaseReason.lease_timeout active.id
            add_audit m user_id "SESSION_LAZILY_REAPED" "account_sessions" active.id
                (("accountId", str account_id) ∷ [])
            start_session m user_id account_id device_id options)
            db)
  restart_session-Granted options active db h =
      Yields-bind (λ _. Entitled m.now user_id account_id device_id) _ _ _ db
        (Yields-of_Keeps _ _ (staled Entitled-frame m.now ReleaseReason.lease_timeout active.id) db
          h)
        (λ _ db1 h1.
          Yields-bind (λ _. Entitled m.now user_id account_id device_id) _ _ _ db1
            (Yields-of_Keeps _ _ (Entitled-frame.audit m _ _ _ _ _) db1 h1)
            (λ _ db2 h2. start_session-Granted options db2 h2))

  claim_account-Granted :
      (options : Challenge) (active : Option Session) (db : Db)
      → live_session_of account_id db ≡ active
      → Entitled m.now user_id account_id device_id db
      → Yields
          (Granted m user_id account_id device_id)
          (claim_account m user_id account_id device_id options active db)
  unfolding claim_account pure throw
  claim_account-Granted options none db e h = start_session-Granted options db h
  claim_account-Granted options (some active) db e h =
      elim (Bool-cases (ltb active.started_at (m.now - 14400000))) [
        | inl old ↦ rw old (restart_session-Granted options active db h)
        | inr recent ↦
            elim (Bool-cases (active.user_id == user_id && active.device_id == device_id)) [
              | inl mine ↦
                  rw (recent, mine)
                    (record {
                      entitled = h;
                      row =
                          is_some-of_hit (lease_row active.id user_id account_id device_id)
                            db.sessions active (live_on_account account_id) e
                            (rw
                              (
                                eq_refl active.id,
                                find_where-holds (live_on_account account_id) db.sessions active e,
                                mine,
                              )
                              refl);
                    })
              | inr other ↦ rw (recent, other) tt
            ]
      ]

  request_lease-Granted :
      (options : Challenge) (db : Db)
      → Yields
          (Granted m user_id account_id device_id)
          (request_lease m user_id account_id device_id options db)
  unfolding request_lease
  request_lease-Granted options db = Yields-gets _ (user_by_id user_id) _ db (
      Yields-gets _ (active_assignment account_id user_id) _ db (
        Yields-ensure _ _ _ _ db λ user. Yields-gets _ (authorized_device device_id user_id) _ db (
          Yields-ensure _ _ _ _ db λ device. Yields-gets _ (account_by_id account_id) _ db (
            Yields-ensure _ _ _ _ db λ account. Yields-gets _ (live_session_of account_id) _ db (
              claim_account-Granted options (live_session_of account_id db) db refl
                (record { user = user; device = device; account = account }))))))

-- A lease that `acquireLease` returns, new or reconnected, is a live session of that user on that
-- account and device; the user is an administrator or has an active assignment of the account that
-- has not expired, the device is an active one of the user, and the account is available.
pub acquire_lease-Granted :
    (m : Moment) (user_id account_id device_id : String) (options : Challenge) (lease : Lease)
    (db db' : Db)
    → acquire_lease m user_id account_id device_id options db ≡ ok lease db'
    → Granted m user_id account_id device_id lease db'
unfolding acquire_lease
acquire_lease-Granted m user_id account_id device_id options lease db db' e =
    Yields-ok (Granted m user_id account_id device_id) _ lease db'
      (Yields-transaction _ _ db (
        Yields-skip _ _ _ db
          λ _ db1. request_lease-Granted m user_id account_id device_id options db1))
      e
