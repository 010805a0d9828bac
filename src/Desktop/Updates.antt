-- ===== src/Desktop/Updates.antt =====
-- The update checker: apps/desktop/src/hooks/useUpdateChecker.ts.
pub mod Newer
pub mod Dismissed
mod Tests
use Prim.Native.Char.{Char, code}
use Prim.Native.String
use laap.Base.{
  Bool, List, Option, String, [], false, get_or, if◌then◌else◌, leb, ltb, nat_eq, none, not, some,
  suc, true, zero, ℕ, ◌&&◌, ◌*◌, ◌+◌, ◌-◌, ◌==◌, ◌||◌, ◌∷◌,
}
use laap.Desktop.Action.{
  Act, Cause, as_text, or_text, attempt, concat, error, finally, gets, modify, ok, pure, throw,
  thrown, when, ◌>>=◌, ◌>>◌,
}
use laap.Text.{skip_spaces, split}

-- an integer: `negsuc n` is -(n + 1)
pub data ℤ : Type 0 where
  pos negsuc : ℕ → ℤ

abbrev is_digit : ℕ → Bool
is_digit c = leb 48 c && leb c 57

-- the digits that a text begins with, read after `n`
abbrev digits : ℕ → String → ℕ
digits n String.[] = n
digits n (String.◌∷◌ c t) =
    let rest = digits (n * 10 + (code c - 48)) t in if is_digit (code c) then rest else n

abbrev negate : ℕ → ℤ
negate zero = pos 0
negate (suc n) = negsuc n

abbrev signed : String → ℤ
signed String.[] = pos 0
signed (String.◌∷◌ c t) =
    if nat_eq (code c) 45
    then negate (digits 0 t)
    else if nat_eq (code c) 43
    then pos (digits 0 t)
    else pos (digits 0 (String.◌∷◌ c t))

-- `parseInt(part, 10) || 0`: 0 where the text begins with no number
pub parse_int : String → ℤ
parse_int t = signed (skip_spaces t)

-- `replace(/^v/, '')`
abbrev strip_v : String → String
strip_v String.[] = ""
strip_v (String.◌∷◌ c t) = if nat_eq (code c) 118 then t else String.◌∷◌ c t

pub record Version : Type 0 where
  pub major : ℤ
  pub minor : ℤ
  pub patch : ℤ

abbrev part_at : ℕ → List String → ℤ
part_at n [] = pos 0
part_at zero (p ∷ ps) = parse_int p
part_at (suc n) (p ∷ ps) = part_at n ps

-- `parseSemver`; the spaces that `trim` removes, `parseInt` passes over
pub parse_semver : String → Version
parse_semver v =
    let parts = split 46 (strip_v v) in
    record { major = part_at 0 parts; minor = part_at 1 parts; patch = part_at 2 parts }

abbrev pub gt_int : ℤ → ℤ → Bool
gt_int (pos a) (pos b) = ltb b a
gt_int (pos a) (negsuc b) = true
gt_int (negsuc a) (pos b) = false
gt_int (negsuc a) (negsuc b) = ltb a b

abbrev pub eq_int : ℤ → ℤ → Bool
eq_int (pos a) (pos b) = nat_eq a b
eq_int (negsuc a) (negsuc b) = nat_eq a b
eq_int _ _ = false

abbrev pub newer : Version → Version → Bool
newer r c =
    if not (eq_int r.major c.major)
    then gt_int r.major c.major
    else if not (eq_int r.minor c.minor)
    then gt_int r.minor c.minor
    else gt_int r.patch c.patch

-- `isNewerVersion`
unfoldable pub is_newer_version : String → String → Bool
is_newer_version remote current = newer (parse_semver remote) (parse_semver current)

-- `APP_VERSION`
abbrev pub app_version : String
app_version = "0.4.7"

-- `GitHubReleaseInfo`
pub record Release : Type 0 where
  pub tag_name : String
  pub version : String
  pub name : String
  pub body : String
  pub html_url : String
  pub published_at : String

-- what GitHub answers, with its status as a template literal writes it; a field of the document may
-- be missing
pub record Response : Type 0 where
  pub is_ok : Bool
  pub status : ℕ
  pub status_text : String
  pub tag_name : Option String
  pub name : Option String
  pub body : Option String
  pub html_url : Option String
  pub published_at : Option String

pub data Fetched : Type 0 where
  response : Response → Fetched
  failed : Cause → Fetched

-- the state of the hook, and the version that localStorage has as dismissed
pub record Checker : Type 0 where
  pub checking : Bool
  pub update_available : Bool
  pub latest_release : Option Release
  pub check_error : Option String
  pub dismissed : Option String

abbrev releases_page : String
releases_page = "https://github.com/Kingof3O/laap/releases/latest"

-- the release that a document describes
abbrev pub release_of : String → String → Response → Release
release_of now tag r = record {
  tag_name = tag;
  version = strip_v tag;
  name = or_text r.name (concat "Release " tag);
  body = or_text r.body "New enhancements and updates are available.";
  html_url = or_text r.html_url releases_page;
  published_at = or_text r.published_at now;
}

abbrev is_dismissed : Option String → String → Bool
is_dismissed none version = false
is_dismissed (some d) version = d == version

-- whether the update is shown
abbrev pub shows : Bool → Release → Option String → Bool
shows manual r dismissed =
    is_newer_version r.version app_version && (manual || not (is_dismissed dismissed r.version))

hide : Act Checker (Option Release)
hide = do modify (λ c. record c { update_available = false }); pure none

offer : Bool → Release → Act Checker (Option Release)
offer manual r = do
  modify (λ c. record c { latest_release = some r; update_available = shows manual r c.dismissed })
  pure (some r)

read_tag : String → Bool → Response → Option String → Act Checker (Option Release)
read_tag now manual r none = hide
read_tag now manual r (some tag) = if tag == "" then hide else offer manual (release_of now tag r)

read_response : String → Bool → Fetched → Act Checker (Option Release)
read_response now manual (failed c) = throw c
read_response now manual (response r) =
    if r.is_ok
    then read_tag now manual r r.tag_name
    else if nat_eq r.status 404
    then hide
    else throw (error (concat "GitHub API error (" (concat r.status_text ")")))

check_failed : Bool → Cause → Act Checker (Option Release)
check_failed manual cause = do
  modify (λ c. record c { check_error = some cause.message })
  if manual then throw (error "Unable to check for updates (Offline/Blocked)") else pure none

-- `checkForUpdates`; the build may be offline only
unfoldable pub check_for_updates : Bool → String → Bool → Fetched → Act Checker (Option Release)
unfolding read_response read_tag offer check_failed hide
check_for_updates offline_only now manual fetched = if offline_only then pure none else (do
  modify (λ c. record c { checking = true; check_error = none })
  finally (attempt (read_response now manual fetched) (check_failed manual))
      (modify (λ c. record c { checking = false })))

abbrev remember : Bool → Option Release → Option String → Option String
remember true (some r) dismissed = some r.version
remember forever release dismissed = dismissed

-- `dismissUpdate`
unfoldable pub dismiss_update : Bool → Act Checker (Unit {0})
dismiss_update forever = modify (λ c. record c {
  dismissed = remember forever c.latest_release c.dismissed;
  update_available = false;
})
