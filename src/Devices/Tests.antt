-- ===== src/Devices/Tests.antt =====
-- Runs of the device service on the sample database.
use laap.Base.{refl}
use laap.Audit.{add_audit}
use laap.Base.Rows.{distinct_by, exists_where, find_where, select_where, update_where}
use laap.Db.{update_devices, update_sessions, write_devices, write_sessions}
use laap.Devices.{end_revoked, revoke_device}
use laap.Devices.Revoke.{Released, revoke_device-Released}
use laap.Exec.{after, ensure, for_each, gets, transaction, ◌>>=◌}
use laap.Leases.{close_session}
use laap.Samples.{at_time, leased}
use laap.Samples.Valid.{leased-AllBacked}
use laap.Schema.{Db, devices_ok, sessions_ok}

abbrev revoked : Db
revoked = after (revoke_device (at_time 1070000 "r2") "u0" "d1" leased)

revoke_device-Released_example : Released "d1" revoked
unfolding revoke_device transaction ◌>>=◌ for_each find_where select_where update_where end_revoked
    close_session update_sessions write_sessions sessions_ok add_audit update_devices write_devices
    devices_ok gets ensure distinct_by exists_where
revoke_device-Released_example =
    revoke_device-Released (at_time 1070000 "r2") "u0" "d1" leased revoked leased-AllBacked refl
