-- ===== src/Devices/Revoke.antt =====
-- `revokeDevice`: the device loses its status before its sessions end, and none is left when the
-- transaction commits.
use laap.Base.{
  All, All-weaken, Bool, Bool-cases, List, String, [], and-true, arith, eq_iff, false, inl, inr,
  not, refl, sym, true, true-ne-false, ◌&&◌, ◌==◌, ◌∙◌, ◌∷◌, ◌≡◌,
}
use laap.Audit.{add_audit, add_audit-Keeps}
use laap.Base.Keys.{is_some-update}
use laap.Base.Rows.{select_where, update_where}
use laap.Db.{Moment, update_devices, write_devices}
use laap.Db.Queries.{active_device_of}
use laap.Devices.{end_revoked, live_on_device, revoke_device, revoked_device}
use laap.Exec.{for_each, ok}
use laap.Exec.Keeps.{Keeps, keeps_rules}
use laap.Exec.Yields.{
  Yields, Yields-and, Yields-bind, Yields-ensure, Yields-for_each, Yields-gets, Yields-of_Keeps,
  Yields-ok, Yields-transaction, Yields-weaken, transaction-settles,
}
use laap.Leases.Backed.{AllBacked, is_backed}
use laap.Leases.Closing.{Closable, Pending, Pending-done, Pending-start, end_row-Pending}
use laap.Leases.Frame.{Frame, ended, frame_of}
use laap.Schema.{Account, Db, Device, Payload, Session, str}
use laap.Types.{ReleaseReason, SessionStatus, is_active_device, is_live}

-- No row of the device is in force.
pub record IsRevoked (device_id : String) (db : Db) : Type 0 where
  pub rows : All (λ d. (d.id == device_id) ≡ true → is_active_device d.status ≡ false) db.devices

-- backed, and not live on the device
abbrev pub is_released : String → Db → Session → Bool
is_released device_id db s = is_backed db.accounts db.devices s && not (live_on_device device_id s)

is_released-Closable : (device_id : String) → Closable (is_released device_id)
is_released-Closable device_id = record {
  stable = λ db rows logs s. refl;
  over = λ db now status reason s over. rw over (ground arith);
}

-- Once the device is revoked, the rows that are live on it are the ones to end.
record Revoking (device_id : String) (db : Db) : Type 0 where
  pub revoked : IsRevoked device_id db
  pub others :
      All (λ s. live_on_device device_id s ≡ false → is_released device_id db s ≡ true) db.sessions

revoke_rows :
    (device_id : String) (devices : List Device)
    → All
        (λ d. (d.id == device_id) ≡ true → is_active_device d.status ≡ false)
        (update_where (λ d. d.id == device_id) revoked_device devices)
unfolding update_where
revoke_rows device_id [] = tt
revoke_rows device_id (d ∷ ds) = elim (Bool-cases (d.id == device_id)) [
  | inl hit ↦ rw hit (λ _. refl, revoke_rows device_id ds)
  | inr miss ↦ rw miss (λ k. absurd (true-ne-false k miss), revoke_rows device_id ds)
]

-- No active row of another device is one of this device's rows.
other_device :
    (device_id other user_id : String) (d : Device)
    → (other == device_id) ≡ false
    → (d.id == device_id) ≡ true
    → active_device_of other user_id d ≡ true
    → ⊥
other_device device_id other user_id d apart hit k =
    let same : d.id ≡ device_id = (eq_iff d.id device_id).0 hit in
    let also : d.id ≡ other = (eq_iff d.id other).0 (and-true _ _ k).0 in
    true-ne-false ((eq_iff other device_id).1 (sym also ∙ same)) apart

-- A session that is not live on the device stays backed.
other_released :
    (device_id : String) (accounts : List Account) (devices : List Device) (s : Session)
    → live_on_device device_id s ≡ false
    → is_backed accounts devices s ≡ true
    → (is_backed accounts (update_where (λ d. d.id == device_id) revoked_device devices) s
        && not (live_on_device device_id s))
      ≡ true
other_released device_id accounts devices s apart h = elim (Bool-cases (is_live s.status)) [
  | inl live ↦
      let ne : (s.device_id == device_id) ≡ false = ground arith in
      ground (
        arith,
        is_some-update (active_device_of s.device_id s.user_id) (λ d. d.id == device_id)
            revoked_device
            (λ d hit k. absurd (other_device device_id s.device_id s.user_id d ne hit k)) devices,
      )
  | inr dead ↦ ground arith
]

mark_revoked :
    (device_id : String) (db : Db)
    → AllBacked db
    → Yields (λ _. Revoking device_id) (update_devices (λ d. d.id == device_id) revoked_device db)
unfolding update_devices write_devices
mark_revoked device_id db h =
    let new : Revoking device_id
        (record db { devices = update_where (λ d. d.id == device_id) revoked_device db.devices }) =
      record {
        revoked = record { rows = revoke_rows device_id db.devices };
        others =
            All-weaken {P = λ s. is_backed db.accounts db.devices s ≡ true}
              (λ s k apart. other_released device_id db.accounts db.devices s apart k) db.sessions
              h.rows;
      } in
    ground (arith, new)

add_audit-Revoking :
    (device_id : String) (m : Moment) (actor_id action entity_type entity_id : String)
    (payload : Payload)
    → Keeps (Revoking device_id) (add_audit m actor_id action entity_type entity_id payload)
add_audit-Revoking device_id =
    add_audit-Keeps (Revoking device_id)
      λ db rows h. record { revoked = record { rows = h.revoked.rows }; others = h.others }

IsRevoked_frame : (device_id : String) → Frame (IsRevoked device_id)
IsRevoked_frame device_id =
    frame_of (IsRevoked device_id) (λ db rows logs h. record { rows = h.rows })

end_revoked-Keeps :
    {P : Db → Type 0} (frame : Frame P) (m : Moment) (actor_id : String) (s : Session)
    → Keeps P (end_revoked m actor_id s)
unfolding end_revoked
end_revoked-Keeps frame m actor_id s = search (keeps_rules, frame.audit, ended frame)

end_revoked-Yields :
    (device_id : String) (m : Moment) (actor_id : String) (x : Session) (rest : List Session)
    (db : Db)
    → IsRevoked device_id db × Pending (is_released device_id) (x ∷ rest) db
    → Yields
        (λ _ db'. IsRevoked device_id db' × Pending (is_released device_id) rest db')
        (end_revoked m actor_id x db)
unfolding end_revoked
end_revoked-Yields device_id m actor_id x rest db (revoked, pending) =
    Yields-and (λ _. IsRevoked device_id) (λ _. Pending (is_released device_id) rest) _
      (Yields-of_Keeps (IsRevoked device_id) _
        (end_revoked-Keeps (IsRevoked_frame device_id) m actor_id x) db revoked)
      (end_row-Pending (is_released device_id) (is_released-Closable device_id) m x
        SessionStatus.ended ReleaseReason.error actor_id "SESSION_ENDED" "account_sessions" x.id
        (("releaseReason", str "device_revoked") ∷ []) rest db refl pending)

-- What holds when the transaction has run.
pub record Released (device_id : String) (db : Db) : Type 0 where
  pub revoked : IsRevoked device_id db
  pub rows : All (λ s. is_released device_id db s ≡ true) db.sessions

end_all-Yields :
    (m : Moment) (actor_id device_id : String) (db : Db)
    → Revoking device_id db
    → Yields
        (λ _. Released device_id)
        (for_each (select_where (live_on_device device_id) db.sessions) (end_revoked m actor_id) db)
end_all-Yields m actor_id device_id db h =
    Yields-weaken (λ _ db'. IsRevoked device_id db' × Pending (is_released device_id) [] db')
      (λ _. Released device_id) _
      (λ _ db' (revoked, done). record {
        revoked = revoked;
        rows = Pending-done (is_released device_id) db' done;
      })
      (Yields-for_each
        (λ rest db'. IsRevoked device_id db' × Pending (is_released device_id) rest db')
        (end_revoked m actor_id) (λ x rest db'. end_revoked-Yields device_id m actor_id x rest db')
        _ db
        (h.revoked, Pending-start (is_released device_id) (live_on_device device_id) db h.others))

revoke-Yields :
    (m : Moment) (actor_id device_id : String) (db : Db)
    → AllBacked db
    → Yields (λ _. Released device_id) (revoke_device m actor_id device_id db)
unfolding revoke_device
revoke-Yields m actor_id device_id db h =
    let Q : Unit {0} → Db → Type 0 = λ _. Released device_id in
    Yields-transaction Q _ db (
      Yields-gets Q _ _ db (
        Yields-ensure Q _ _ _ db λ _.
          Yields-bind (λ _. Revoking device_id) Q _ _ db (mark_revoked device_id db h)
            λ _ db1 h1.
              Yields-bind (λ _. Revoking device_id) Q _ _ db1
                (Yields-of_Keeps (Revoking device_id) _
                  (add_audit-Revoking device_id m actor_id "DEVICE_REVOKED" "user_devices" device_id
                    [])
                  db1 h1)
                λ _ db2 h2. Yields-gets Q _ _ db2 (end_all-Yields m actor_id device_id db2 h2)))

pub revoke_device-AllBacked :
    (m : Moment) (actor_id device_id : String)
    → Keeps AllBacked (revoke_device m actor_id device_id)
unfolding revoke_device
revoke_device-AllBacked m actor_id device_id = record {
  at = λ db h. transaction-settles AllBacked _ db h (
      Yields-weaken (λ _. Released device_id) (λ _. AllBacked) _
        (λ _ db' r. record { rows = All-weaken (λ s k. (and-true _ _ k).0) db'.sessions r.rows })
        (revoke-Yields m actor_id device_id db h));
}

-- In a database where every live session is on an available account and on an active device of its
-- user: when `revokeDevice` returns, no row of the device is active, no session is live on it, and every
-- session that is still live is on an available account and on an active device of its user.
pub revoke_device-Released :
    (m : Moment) (actor_id device_id : String) (db db' : Db)
    → AllBacked db
    → revoke_device m actor_id device_id db ≡ ok tt db'
    → Released device_id db'
revoke_device-Released m actor_id device_id db db' h e =
    Yields-ok (λ _. Released device_id) _ tt db' (revoke-Yields m actor_id device_id db h) e
