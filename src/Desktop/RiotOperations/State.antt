-- ===== src/Desktop/RiotOperations/State.antt =====
-- What `run` of apps/desktop/src/context/RiotOperations.tsx reads and writes.
use laap.Base.{Bool, List, Option, String, ℕ, ◌||◌}
use laap.Desktop.Action.{Cause}

-- `RuntimeSnapshot`
pub record Snapshot : Type 0 where
  pub riot_client : Bool
  pub league_client : Bool
  pub league_game : Bool
  pub valorant_game : Bool

-- `Object.values(state).some(Boolean)`
abbrev pub any_running : Snapshot → Bool
any_running s = s.riot_client || (s.league_client || (s.league_game || s.valorant_game))

abbrev pub in_match : Snapshot → Bool
in_match s = s.league_game || s.valorant_game

-- the options of `run`
pub record Launch : Type 0 where
  pub launch_key : String
  pub allow_relaunch : Bool

pub data Answer (A : Type 0) : Type 0 where
  value : A → Answer A
  failed : Cause → Answer A

-- The n-th snapshot, the n-th answer of the user, and what happened before the n-th round of the
-- tracking loop. The action answers by the runs of it so far, and whether it is told that the user
-- has confirmed.
pub record World (A : Type 0) : Type 0 where
  pub snapshot : ℕ → Answer Snapshot
  pub consents : ℕ → Bool
  pub action : List Bool → Bool → Answer A
  pub stops : ℕ → Bool
  pub unmounts : ℕ → Bool
  pub started : ℕ
  pub now : ℕ → ℕ

-- the state and the refs of the provider, and what was asked and run
pub record Provider : Type 0 where
  pub locked : Bool
  pub busy : Bool
  pub running : Bool
  pub launch_status : Option String
  pub tracking : Bool
  pub active_key : Option String
  pub stop_tracking : Bool
  pub mounted : Bool
  pub snapshots : ℕ
  pub asked : ℕ
  pub ran : List Bool
