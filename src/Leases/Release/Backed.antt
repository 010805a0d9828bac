-- ===== src/Leases/Release/Backed.antt =====
-- A heartbeat revives no lease: it writes the one row that its guard has seen running.
use laap.Base.{
  All, List, Option-cases, String, and-true, arith, eq_iff, inl, inr, some, true, ℕ, ◌==◌, ◌≡◌,
}
use laap.Base.Keys.{All-update_unique, find_where_unique}
use laap.Base.Rows.{find_where-All}
use laap.Db.{Moment, update_sessions}
use laap.Db.Queries.{session_by_id}
use laap.Db.WellFormed.{WellFormed}
use laap.Db.Writes.{write_sessions_after}
use laap.Exec.{after, transaction, ◌>>=◌}
use laap.Exec.Keeps.{bind-at, transaction-at}
use laap.Leases.Backed.{AllBacked, AllBacked-frame, is_backed}
use laap.Leases.Release.{beat, beat_result, beaten, heartbeat_lease, record_beat, refresh_lease}
use laap.Leases.Release.Frame.{beat_result-Keeps, exit_lease-Keeps, expire_lease-Keeps}
use laap.Schema.{Account, Db, Device, Session, sessions_clash, sessions_ok}
use laap.Types.{SessionRuntimeState, is_running}

is_backed-beaten :
    (accounts : List Account) (devices : List Device) (now : ℕ) (state : SessionRuntimeState)
    (s : Session)
    → is_running s.status ≡ true
    → is_backed accounts devices s ≡ true
    → is_backed accounts devices (beaten now state s) ≡ true
is_backed-beaten accounts devices now state s running h = ground arith

-- The key of the sessions table.
session_unique :
    (db : Db) (session_id : String) (s : Session)
    → WellFormed db
    → session_by_id session_id db ≡ some s
    → All (λ x. (x.id == session_id) ≡ true → x ≡ s) db.sessions
unfolding sessions_ok
session_unique db session_id s w found =
    find_where_unique (λ x. x.id == session_id) sessions_clash
      (λ a b p q. ground (arith, eq_iff a.id session_id, eq_iff b.id session_id, eq_iff a.id b.id))
      db.sessions s (and-true _ _ w.sessions).0 found

module _ (m : Moment) (user_id session_id : String) (state : SessionRuntimeState) where
  beat_write-AllBacked :
      (db : Db) (s : Session)
      → WellFormed db
      → AllBacked db
      → session_by_id session_id db ≡ some s
      → is_running s.status ≡ true
      → AllBacked (after (update_sessions (λ x. x.id == session_id) (beaten m.now state) db))
  unfolding update_sessions
  beat_write-AllBacked db s w h found running = write_sessions_after AllBacked db h _ (record {
    rows =
        All-update_unique _ (λ x. x.id == session_id) (beaten m.now state) s
          (is_backed-beaten db.accounts db.devices m.now state s running
            (find_where-All _ _ db.sessions s found h.rows))
          db.sessions (session_unique db session_id s w found) h.rows;
  })

  record_beat-AllBacked :
      (db : Db) (s : Session)
      → WellFormed db
      → AllBacked db
      → session_by_id session_id db ≡ some s
      → is_running s.status ≡ true
      → AllBacked (after (record_beat m user_id session_id state db))
  unfolding record_beat refresh_lease ◌>>=◌
  record_beat-AllBacked db s w h found running = ground (
    arith,
    (exit_lease-Keeps AllBacked-frame m user_id session_id).at db h,
    beat_write-AllBacked db s w h found running,
  )

  beat-AllBacked :
      (db : Db)
      → WellFormed db
      → AllBacked db
      → AllBacked (after (beat m user_id session_id state db))
  unfolding beat ◌>>=◌
  beat-AllBacked db w h = elim (Option-cases (session_by_id session_id db)) [
    | inl missing ↦ rw (missing, ◌>>=◌) h
    | inr (s, found) ↦ ground (
      arith,
      record_beat-AllBacked db s w h found,
      (expire_lease-Keeps AllBacked-frame m user_id s).at db h,
    )
  ]

  pub heartbeat_lease-AllBacked :
      (db : Db)
      → WellFormed db
      → AllBacked db
      → AllBacked (after (heartbeat_lease m user_id session_id state db))
  unfolding heartbeat_lease
  heartbeat_lease-AllBacked db w h =
      bind-at AllBacked (transaction (beat m user_id session_id state)) beat_result db
        (transaction-at AllBacked _ db h (beat-AllBacked db w h))
        (beat_result-Keeps AllBacked-frame)
