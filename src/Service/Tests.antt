-- ===== src/Service/Tests.antt =====
-- Histories of calls on the sample database.
use laap.Base.{◌≤◌, ◌&&◌, List, String, [], if◌then◌else◌, refl, some, true, ◌==◌, ◌∷◌, ◌≡◌}
use laap.Base.Rows.{count_where, distinct_by, exists_where, update_where}
use laap.Db.{Moment, update_sessions, write_sessions}
use laap.Exec.{M, after, constraint, throw, transaction, ◌>>=◌, ◌>>◌}
use laap.Exec.Atomic.{transaction-unchanged}
use laap.Leases.{close_session}
use laap.Leases.Backed.{AllBacked}
use laap.Samples.{at_time, leased, unsigned}
use laap.Samples.Valid.{leased-AllBacked, leased-HasAdmin, leased-WellFormed}
use laap.Schema.{sessions_ok}
use laap.SecretBox.{Cipher}
use laap.Service.{Call, Config, run}
use laap.Service.Backed.{run-AllBacked}
use laap.Service.HasAdmin.{run-HasAdmin}
use laap.Service.Logged.{run-Extends}
use laap.Service.WellFormed.{run-one_session, takes}
use laap.Statements.Logged.{Extends}
use laap.Types.{ReleaseReason, SessionRuntimeState, SessionStatus}
use laap.Users.HasAdmin.{HasAdmin}

abbrev key : String
key = "0123456789abcdef0123456789abcdef"

-- a cipher that hides nothing, for runs of the model
abbrev clear : Cipher
clear = record {
  seal = λ k c value. record { iv = "i"; tag = "t"; body = value };
  unseal = λ k c e. some e.body;
  byte_length = λ t. if t == "i" then 12 else 16;
}

abbrev config : Config
config = record {
  texts = record { sql_lower = λ t. t; to_lower = λ t. t; hash = λ t. t; compare = λ a b. a == b };
  is_uuid = λ t. true;
  cipher = clear;
  vault_key = key;
}

-- A heartbeat, a revocation by the administrator, and an attempt of the operator to lease again.
abbrev history : List (Moment × Call)
history =
    (at_time 1060000 "r1", Call.heartbeat_lease "u1" "s1" SessionRuntimeState.in_game)
    ∷ (at_time 1070000 "r2", Call.revoke_device "u0" "d1")
    ∷ (at_time 1080000 "r3", Call.acquire_lease "u1" "a1" "d1" unsigned)
    ∷ []

run-one_session_example :
    (count_where (λ s. s.account_id == "a1" && takes s.status) (run config leased history).sessions
      ≤ 1)
    × (count_where (λ u. u.email == "maya@laap.local") (run config leased history).users ≤ 1)
run-one_session_example =
    run-one_session config leased history "a1" "maya@laap.local" leased-WellFormed

run-AllBacked_example : AllBacked (run config leased history)
run-AllBacked_example = run-AllBacked config leased history leased-WellFormed leased-AllBacked

run-HasAdmin_example : HasAdmin (run config leased history)
run-HasAdmin_example = run-HasAdmin config leased history leased-WellFormed leased-HasAdmin

run-Extends_example : Extends leased.audit_logs (run config leased history)
run-Extends_example = run-Extends config leased history

-- a revocation that loses its race at the last statement
abbrev interrupted : M (Unit {0})
interrupted = do
  close_session 1070000 SessionStatus.ended ReleaseReason.error "s1"
  throw constraint

interrupted-unchanged : after (transaction interrupted leased) ≡ leased
unfolding transaction ◌>>=◌ close_session update_sessions write_sessions sessions_ok update_where
    distinct_by exists_where throw
interrupted-unchanged =
    transaction-unchanged interrupted constraint leased (after (transaction interrupted leased))
      refl
