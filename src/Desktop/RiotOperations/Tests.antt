-- ===== src/Desktop/RiotOperations/Tests.antt =====
-- A launch while a match is on.
use laap.Base.{[], arith, none, true, false, refl, ℕ, ◌≢◌, ◌+◌, ◌*◌}
use laap.Desktop.Action.{ok, left}
use laap.Desktop.RiotOperations.{Provider, Snapshot, World, run, track, value}
use laap.Desktop.RiotOperations.Consent.{Allowed, run-Allowed}
use laap.Desktop.RiotOperations.Tracking.{track-ends}

abbrev playing : Snapshot
playing = record {
  riot_client = true;
  league_client = false;
  league_game = false;
  valorant_game = true;
}

-- the user agrees, and the client is slow to start
abbrev agreeing : World ℕ
agreeing = record {
  snapshot = λ n. value playing;
  consents = λ n. true;
  action = λ ran confirmed. value 7;
  stops = λ n. false;
  unmounts = λ n. false;
  started = 500;
  now = λ n. 600 + 1000 * n;
}

abbrev idle : Provider
idle = record {
  locked = false;
  busy = false;
  running = false;
  launch_status = none;
  tracking = false;
  active_key = none;
  stop_tracking = false;
  mounted = true;
  snapshots = 0;
  asked = 0;
  ran = [];
}

run-Allowed_example :
    Allowed (agreeing.action [] false) (value playing) true (left (run agreeing none idle)).ran
run-Allowed_example = run-Allowed agreeing none idle refl refl

track-ends_example : track agreeing idle ≢ ok none idle
track-ends_example = track-ends agreeing (λ n. omega arith) (omega arith) idle idle
