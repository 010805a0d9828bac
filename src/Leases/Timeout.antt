-- ===== src/Leases/Timeout.antt =====
-- A lease over four hours old: `acquireLease` means to end it with the reason 'lease_timeout', which
-- the CHECK on `release_reason` does not list.
use laap.Base.{
  All, Bool, List, Option-cases, String, [], eq_refl, false, inl, inr, ltb, refl, some, true,
  true-ne-false, ◌-◌, ◌==◌, ◌∷◌, ◌≡◌,
}
use laap.Base.Keys.{is_some-of_hit}
use laap.Base.Rows.{select_where}
use laap.Db.{Moment}
use laap.Db.Queries.{live_on_account, live_session_of, session_by_id}
use laap.Exec.{constraint, ensure, err, for_each, gets, ok, pure, transaction, ◌>>=◌}
use laap.Leases.{
  Challenge, acquire_lease, claim_account, is_stale, reap_stale_sessions, request_lease,
}
use laap.Leases.Closed.{close_session-refused}
use laap.Leases.Grant.{Entitled}
use laap.Samples.{held}
use laap.Schema.{Db, Session}
use laap.Types.{ReleaseReason, SessionStatus}

select_where-none {ℓ} :
    {A : Type ℓ} (p : A → Bool) (xs : List A) → All (λ x. p x ≡ false) xs → select_where p xs ≡ []
unfolding select_where
select_where-none p [] h = refl
select_where-none p (x ∷ xs) h = rw (h.0, select_where-none p xs h.1) refl

-- With nothing to reap, the reaper writes nothing.
reap_stale_sessions-idle :
    (m : Moment) (db : Db)
    → All (λ s. is_stale m.now s ≡ false) db.sessions
    → reap_stale_sessions m db ≡ ok 0 db
unfolding reap_stale_sessions ◌>>=◌ gets for_each pure
reap_stale_sessions-idle m db h = rw (select_where-none (is_stale m.now) db.sessions h) refl

-- The row that is live on the account is also found by its key.
row_by_key :
    (account_id : String) (db : Db) (s : Session)
    → live_session_of account_id db ≡ some s
    → (t : Session) × (session_by_id s.id db ≡ some t)
row_by_key account_id db s e =
    let there =
      is_some-of_hit (λ x. x.id == s.id) db.sessions s (live_on_account account_id) e
        (eq_refl s.id) in
    elim (Option-cases (session_by_id s.id db)) [
      | inl missing ↦ absurd (true-ne-false there (rw missing refl))
      | inr hit ↦ hit
    ]

claim_account-lapsed :
    (m : Moment) (user_id account_id device_id : String) (options : Challenge) (s : Session)
    (db : Db)
    → live_session_of account_id db ≡ some s
    → ltb s.started_at (m.now - 14400000) ≡ true
    → claim_account m user_id account_id device_id options (some s) db ≡ err constraint db
unfolding claim_account ◌>>=◌
claim_account-lapsed m user_id account_id device_id options s db e old =
    let (t, key) = row_by_key account_id db s e in
    rw
      (
        old,
        close_session-refused m.now SessionStatus.stale ReleaseReason.lease_timeout s.id t db refl
            key,
      )
      refl

-- While no session of the whole database is stale, and a session has held an account for over four
-- hours, `acquireLease` fails for every user and device that could lease the account, its holder
-- included: the UPDATE that should end the session breaks a CHECK, and the database is left as it was.
pub acquire_lease-lapsed :
    (m : Moment) (user_id account_id device_id : String) (options : Challenge) (s : Session)
    (db : Db)
    → All (λ x. is_stale m.now x ≡ false) db.sessions
    → Entitled m.now user_id account_id device_id db
    → live_session_of account_id db ≡ some s
    → ltb s.started_at (m.now - 14400000) ≡ true
    → acquire_lease m user_id account_id device_id options db ≡ err constraint db
unfolding acquire_lease request_lease transaction ◌>>=◌ gets ensure
acquire_lease-lapsed m user_id account_id device_id options s db fresh allowed held old =
    rw
      (
        reap_stale_sessions-idle m db fresh,
        allowed.user,
        allowed.device,
        allowed.account,
        held,
        claim_account-lapsed m user_id account_id device_id options s db held old,
      )
      refl
