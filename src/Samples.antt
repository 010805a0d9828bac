-- ===== src/Samples.antt =====
-- A small database, as the seed of apps/api/src/db/seed.ts makes one, for tests and instances.
pub mod Valid
use laap.Base.{String, [], false, inl, inr, none, some, ℕ, ◌∷◌, ◌⊎◌}
use laap.Db.{Moment}
use laap.Exec.{Failure, Outcome, err, ok}
use laap.Leases.{Challenge, new_session}
use laap.Schema.{Account, Assignment, Db, Device, Session, User}
use laap.Types.{AccountStatus, AssignmentStatus, DeviceStatus, Platform, UserRole, UserStatus}

abbrev pub admin_user : User
admin_user = record {
  id = "u0";
  email = "admin@laap.local";
  password_hash = "h0";
  display_name = "Alex";
  role = UserRole.admin;
  status = UserStatus.active;
  created_at = 0;
  updated_at = 0;
}

abbrev pub maya : User
maya = record {
  id = "u1";
  email = "maya@laap.local";
  password_hash = "h1";
  display_name = "Maya";
  role = UserRole.operator;
  status = UserStatus.active;
  created_at = 0;
  updated_at = 0;
}

abbrev pub nova : Account
nova = record {
  id = "a1";
  provider = "riot";
  external_id = "Nova#EUW";
  display_name = "Nova#EUW";
  region = "EUW";
  status = AccountStatus.available;
  session_blob = none;
  metadata_json = "{}";
  created_at = 0;
  updated_at = 0;
}

abbrev pub grant : Assignment
grant = record {
  id = "g1";
  account_id = "a1";
  user_id = "u1";
  status = AssignmentStatus.active;
  assigned_at = 0;
  expires_at = some (record { time = 90000000; passes = 90001000 });
  created_at = 0;
}

abbrev pub laptop : Device
laptop = record {
  id = "d1";
  user_id = "u1";
  public_key = "k1";
  platform = Platform.macos;
  device_name = "Laptop";
  app_version = "2.4.1";
  status = DeviceStatus.active;
  last_seen_at = 0;
  created_at = 0;
}

abbrev pub start : Db
start = record {
  users = admin_user ∷ maya ∷ [];
  accounts = nova ∷ [];
  assignments = grant ∷ [];
  devices = laptop ∷ [];
  sessions = [];
  audit_logs = [];
  foreign_keys = false;
}

abbrev pub at_time : ℕ → String → Moment
at_time now uuid = record { now = now; uuid = uuid; audit_uuid = λ n. "log" }

abbrev pub unsigned : Challenge
unsigned = record { nonce = none; signature = none }

abbrev pub held : Session
held = new_session (at_time 1000000 "s1") "u1" "a1" "d1"

abbrev pub leased : Db
leased = record start { sessions = held ∷ [] }

-- what a run returns
abbrev pub result : {A : Type 0} → Outcome A → A ⊎ Failure
result (ok a db) = inl a
result (err e db) = inr e
