-- ===== src/Desktop/Updates/Tests.antt =====
-- Versions, and a release that is dismissed.
use laap.Base.{[], false, none, some, true, refl, ◌∷◌, ◌≡◌}
use laap.Desktop.Action.{left, error}
use laap.Text.{split}
use laap.Desktop.Updates.{
  Checker, Response, dismiss_update, failed, is_newer_version, response, release_of, parse_semver,
  parse_int,
}
use laap.Desktop.Updates.Dismissed.{check_all, dismiss_update-Quiet}
use laap.Desktop.Updates.Newer.{is_newer_version-order}

is_newer_version-order_example :
    (is_newer_version "v0.5.0" "0.4.7" ≡ true)
    × (is_newer_version "0.4.10" "v0.5.0" ≡ false)
    × (is_newer_version "v0.5.0" "v0.5.0" ≡ false)
unfolding is_newer_version parse_semver parse_int split
is_newer_version-order_example = is_newer_version-order "v0.5.0" "0.4.10" "0.4.7" refl refl

abbrev half : Response
half = record {
  is_ok = true;
  status = 200;
  status_text = "200";
  tag_name = some "v0.5.0";
  name = none;
  body = none;
  html_url = none;
  published_at = none;
}

abbrev found : Checker
found = record {
  checking = false;
  update_available = true;
  latest_release = some (release_of "now" "v0.5.0" half);
  check_error = none;
  dismissed = none;
}

dismiss_update-Quiet_example :
    (check_all "later"
      (response half ∷ failed (error "offline") ∷ [])
      (left (dismiss_update true found))).update_available
    ≡ false
dismiss_update-Quiet_example =
    dismiss_update-Quiet (release_of "now" "v0.5.0" half) "later"
      (response half ∷ failed (error "offline") ∷ []) found refl (refl, (tt, tt))

-- a suffix after the patch number does not count, and a version that is no number is 0.0.0
not_newer : is_newer_version "0.4.7-beta" "0.4.7" ≡ false
unfolding is_newer_version parse_semver parse_int split
not_newer = refl

no_number : is_newer_version "latest" "0.0.0" ≡ false
unfolding is_newer_version parse_semver parse_int split
no_number = refl
