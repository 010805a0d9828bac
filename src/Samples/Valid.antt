-- ===== src/Samples/Valid.antt =====
-- The sample database meets the invariants.
use laap.Base.{refl}
use laap.Base.Rows.{count_where, distinct_by, exists_where, find_where}
use laap.Db.WellFormed.{WellFormed}
use laap.Leases.Backed.{AllBacked}
use laap.Samples.{leased}
use laap.Schema.{accounts_ok, assignments_ok, devices_ok, sessions_ok, users_ok}
use laap.Users.HasAdmin.{HasAdmin}

pub leased-WellFormed : WellFormed leased
unfolding users_ok accounts_ok assignments_ok devices_ok sessions_ok distinct_by exists_where
leased-WellFormed = record {
  users = refl;
  accounts = refl;
  assignments = refl;
  devices = refl;
  sessions = refl;
}

pub leased-AllBacked : AllBacked leased
unfolding find_where
leased-AllBacked = record { rows = (refl, tt) }

pub leased-HasAdmin : HasAdmin leased
unfolding HasAdmin count_where
leased-HasAdmin = refl
