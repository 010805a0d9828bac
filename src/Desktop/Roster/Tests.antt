-- ===== src/Desktop/Roster/Tests.antt =====
-- Runs of the local profiles.
use laap.Base.{List, [], ◌∷◌, ◌++◌, none, some, true, false, refl, ◌≡◌}
use laap.Desktop.Action.{error}
use laap.Desktop.Roster.{
  Event, Profile, Roster, SyncState, SyncResult, begin_load, begin_start, begin_sync, failed,
  finish_sync, perform, run, settle_load, settle_refresh, settle_sync, value, begin_cancel,
}
use laap.Desktop.Roster.Newest.{run-shown, view}
use laap.Desktop.Roster.Sandbox.{run-settle_start}

abbrev smurf : Profile
smurf = record {
  id = "p1";
  name = "Smurf";
  rank = some "gold II";
  auto_sync_icon = true;
  auto_sync_rank = true;
}

abbrev main : Profile
main = record smurf { id = "p2"; name = "Main" }

abbrev mounted : Roster
mounted = record {
  accounts = [];
  loading = true;
  shown_error = none;
  provisioning = false;
  ticket = none;
  generation = 0;
  requests = 1;
  mounted = true;
  sync_message = none;
  sync_state = SyncState.idle;
  last_sync_at = none;
  last_successful_sync_at = none;
  sync_pending = false;
  sync_epoch = 0;
  cancelled = [];
}

abbrev meanwhile : List Event
meanwhile =
    Event.load_answers 1 (value (smurf ∷ []))
    ∷ Event.options false true false
    ∷ Event.start
    ∷ Event.started 1 "s1"
    ∷ []

abbrev afterwards : List Event
afterwards =
    Event.load_answers 0 (failed (error "gone"))
    ∷ Event.sync_answers 0 5000 (failed (error "League Client is not running"))
    ∷ Event.cancel
    ∷ Event.was_cancelled (some "s1")
    ∷ []

run-shown_example :
    view (
      run (Event.load ∷ meanwhile ++ Event.load_answers 2 (value (main ∷ [])) ∷ afterwards) mounted)
    ≡ (main ∷ [], false, none, 2, true)
run-shown_example =
    run-shown meanwhile afterwards (value (main ∷ [])) mounted refl
      (refl, (refl, (refl, (refl, tt)))) (refl, (refl, (refl, (refl, tt))))

run-settle_start_example :
    perform
      (Event.started 1 "s1")
      (run (Event.start ∷ Event.load ∷ [] ++ Event.cancel ∷ Event.sync false ∷ []) mounted)
    ≡ record (run (Event.start ∷ Event.load ∷ [] ++ Event.cancel ∷ Event.sync false ∷ []) mounted) {
      cancelled = "s1" ∷ [];
    }
unfolding run perform begin_start begin_load begin_cancel begin_sync
run-settle_start_example = run-settle_start (Event.load ∷ []) (Event.sync false ∷ []) "s1" mounted

-- a list that a sync asked for before a profile was deleted shows the profile again
abbrev changed : SyncResult
changed = record { changed = true; message = none; state = some SyncState.success }

abbrev overtaken : List Event
overtaken =
    Event.sync false
    ∷ Event.sync_answers 0 5000 (value changed)
    ∷ Event.load
    ∷ Event.load_answers 2 (value (main ∷ []))
    ∷ Event.refresh_answers 0 5001 (value (main ∷ smurf ∷ []))
    ∷ []

deleted_again : (run overtaken mounted).accounts ≡ main ∷ smurf ∷ []
unfolding run perform begin_sync settle_sync begin_load settle_load settle_refresh finish_sync
deleted_again = refl
