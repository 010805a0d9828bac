-- ===== src/Leases/Release/Forced.antt =====
-- `forceReleaseAccount` frees the account.
use laap.Base.{
  All, All-weaken, Bool, Bool-cases, Option, String, [], and-true, arith, eq_iff, eq_refl, false,
  inl, inr, none, not, not-true, refl, some, true, ◌∷◌, ◌≡◌,
}
use laap.Audit.{add_audit}
use laap.Base.Keys.{find_where_unique}
use laap.Base.Rows.{exists_where, find_where-none}
use laap.Db.{Moment}
use laap.Db.Queries.{live_on_account, live_session_of}
use laap.Db.WellFormed.{WellFormed}
use laap.Exec.{ok, pure, ◌>>=◌}
use laap.Exec.Succeeds.{
  Succeeds, Succeeds-bind, Succeeds-ensure, Succeeds-gets, Succeeds-returns, Succeeds-transaction,
}
use laap.Exec.Yields.{Yields, Yields-ok}
use laap.Leases.{close_session}
use laap.Leases.Closed.{close_session-returns, closed_rows}
use laap.Leases.Closing.{Closable, Pending, Pending-done, close_session-Pending}
use laap.Leases.Release.{end_live_session, force_release_account}
use laap.Schema.{Db, Session, sessions_clash, sessions_ok, str}
use laap.Types.{ApiUser, ReleaseReason, SessionStatus, is_admin}

abbrev is_free : String → Db → Session → Bool
is_free account_id db s = not (live_on_account account_id s)

free_Closable : (account_id : String) → Closable (is_free account_id)
free_Closable account_id = record {
  stable = λ db rows logs s. refl;
  over = λ db now status reason s over. ground (arith, over);
}

-- The unique index leaves one live row of the account at most.
holder-Pending :
    (account_id : String) (db : Db) (s : Session)
    → sessions_ok db.sessions ≡ true
    → live_session_of account_id db ≡ some s
    → Pending (is_free account_id) (s ∷ []) db
unfolding sessions_ok exists_where
holder-Pending account_id db s valid found = record {
  rows =
      All-weaken {P = λ x. live_on_account account_id x ≡ true → x ≡ s}
        (λ x only. elim (Bool-cases (live_on_account account_id x)) [
          | inl holds ↦ rw (only holds, eq_refl s.id) (ground arith)
          | inr free ↦ rw free refl
        ])
        db.sessions
        (find_where_unique (live_on_account account_id) sessions_clash
          (λ a b p q. both_clash account_id a b p q) db.sessions s (and-true _ _ valid).0 found);
}
  where
    both_clash :
        (account_id : String) (a b : Session)
        → live_on_account account_id a ≡ true
        → live_on_account account_id b ≡ true
        → sessions_clash a b ≡ true
    both_clash account_id a b p q = ground (
      arith,
      eq_iff a.account_id account_id,
      eq_iff b.account_id account_id,
      eq_iff a.account_id b.account_id,
    )

-- no session of the account is live
abbrev pub IsFree : String → Db → Type 0
IsFree account_id db = All (λ s. live_on_account account_id s ≡ false) db.sessions

IsFree-rows :
    (account_id : String) (db : Db) → Pending (is_free account_id) [] db → IsFree account_id db
IsFree-rows account_id db h =
    All-weaken (λ s k. not-true (live_on_account account_id s) k) db.sessions
      (Pending-done (is_free account_id) db h)

end_live_session-frees :
    (m : Moment) (actor_id account_id : String) (found : Option Session) (db : Db)
    → sessions_ok db.sessions ≡ true
    → live_session_of account_id db ≡ found
    → Succeeds (λ _. IsFree account_id) (end_live_session m actor_id account_id found db)
unfolding end_live_session ◌>>=◌ pure add_audit
end_live_session-frees m actor_id account_id none db valid e =
    find_where-none (live_on_account account_id) db.sessions e
end_live_session-frees m actor_id account_id (some s) db valid e =
    let reason = ReleaseReason.admin_force_release in
    let returns = close_session-returns m.now SessionStatus.ended reason s.id db refl refl valid in
    let closing : Yields (λ _. Pending (is_free account_id) [])
        (close_session m.now SessionStatus.ended reason s.id db) =
      close_session-Pending (is_free account_id) (free_Closable account_id) s [] db m.now
        SessionStatus.ended reason refl (holder-Pending account_id db s valid e) in
    let done : Pending (is_free account_id) []
        (record db { sessions = closed_rows m.now SessionStatus.ended reason s.id db }) =
      Yields-ok (λ _. Pending (is_free account_id) []) _ tt _ closing returns in
    rw returns (IsFree-rows account_id _ done)

log_release :
    (m : Moment) (actor : ApiUser) (account_id : String) (db : Db)
    → IsFree account_id db
    → Succeeds
        (λ _. IsFree account_id)
        (add_audit m actor.id "SESSION_ENDED" "accounts" account_id
          (("releaseReason", str "admin_force_release") ∷ [])
          db)
unfolding add_audit
log_release m actor account_id db h = h

-- An administrator's `forceReleaseAccount` always returns where the constraints hold, whether the
-- account is held, idle or unknown, and then no session of the account is live.
pub force_release_account-frees :
    (m : Moment) (actor : ApiUser) (account_id : String) (db : Db)
    → WellFormed db
    → is_admin actor.role ≡ true
    → (u : Unit {0}) × (db' : Db) × (force_release_account m actor account_id db ≡ ok u db')
      × IsFree account_id db'
unfolding force_release_account
force_release_account-frees m actor account_id db w admin =
    let Q : Unit {0} → Db → Type 0 = λ _. IsFree account_id in
    Succeeds-returns Q (force_release_account m actor account_id db) (
      Succeeds-ensure Q _ _ _ db admin (
        Succeeds-transaction Q _ db (
          Succeeds-gets Q (live_session_of account_id) _ db (
            Succeeds-bind Q Q _ _ db
              (end_live_session-frees m actor.id account_id (live_session_of account_id db) db
                w.sessions refl)
              (λ _ db1 h. log_release m actor account_id db1 h)))))
