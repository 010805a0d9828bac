-- ===== src/Desktop/Updates/Dismissed.antt =====
-- An update that the user has dismissed for good is not shown again by itself.
use laap.Base.{
  [], true, nat_eq, ◌==◌, All, ◌∷◌, List, Bool-cases, Option, String, eq_refl, false, none, some,
  refl, inl, inr, ◌≡◌,
}
use laap.Desktop.Action.{left, left-modify}
use laap.Desktop.Action.Holds.{
  Holds, Holds-attempt, Holds-finally, Holds-if, Holds-throw, Holds-bind, Holds-modify, Holds-pure,
  holds_rules,
}
use laap.Desktop.Updates.{
  release_of, Cause, Response, dismiss_update, check_for_updates, check_failed, read_response,
  read_tag, hide, Checker, Fetched, Release, app_version, failed, is_newer_version, offer, response,
  shows, strip_v,
}

-- where GitHub answers with a release, it is of this version
abbrev pub Describes : String → Option String → Type 0
Describes version none = Unit
Describes version (some tag) = strip_v tag ≡ version

abbrev pub OfVersion : String → Fetched → Type 0
OfVersion version (failed c) = Unit
OfVersion version (response r) = Describes version r.tag_name

abbrev Quiet : String → Checker → Type 0
Quiet version c = (c.dismissed ≡ some version) × (c.update_available ≡ false)

module _ (version : String) where
  not_shown :
      (r : Release) (c : Checker)
      → r.version ≡ version
      → c.dismissed ≡ some version
      → shows false r c.dismissed ≡ false
  not_shown r c e d = elim (Bool-cases (is_newer_version r.version app_version)) [
    | inl fresh ↦ rw (fresh, d, e, eq_refl version) refl
    | inr old ↦ rw old refl
  ]

  offer-Quiet : (r : Release) → r.version ≡ version → Holds (Quiet version) (offer false r)
  unfolding offer
  offer-Quiet r e =
      let kept =
        Holds-modify
          (λ (c : Checker). record c {
            latest_release = some r;
            update_available = shows false r c.dismissed;
          })
          (λ (c : Checker) (q : Quiet version c). (q.0, not_shown r c e q.0)) in
      search (holds_rules, kept)

  hide-Quiet : Holds (Quiet version) hide
  unfolding hide
  hide-Quiet = Holds-bind _ _ (Holds-modify _ (λ c q. (q.0, refl))) (λ u. Holds-pure none)

  read_tag-Quiet :
      (now : String) (r : Response) (tag : Option String)
      → Describes version tag
      → Holds (Quiet version) (read_tag now false r tag)
  unfolding read_tag
  read_tag-Quiet now r none d = hide-Quiet
  read_tag-Quiet now r (some tag) d =
      Holds-if (tag == "") _ _ hide-Quiet (offer-Quiet (release_of now tag r) d)

  read_response-Quiet :
      (now : String) (f : Fetched)
      → OfVersion version f
      → Holds (Quiet version) (read_response now false f)
  unfolding read_response
  read_response-Quiet now (failed c) d = search holds_rules
  read_response-Quiet now (response r) d =
      Holds-if r.is_ok _ _ (read_tag-Quiet now r r.tag_name d)
        (Holds-if (nat_eq r.status 404) _ _ hide-Quiet (Holds-throw _))

  check_failed-Quiet : (c : Cause) → Holds (Quiet version) (check_failed false c)
  unfolding check_failed
  check_failed-Quiet c = search (holds_rules, Holds-modify)

  check-Quiet :
      (now : String) (f : Fetched)
      → OfVersion version f
      → Holds (Quiet version) (check_for_updates false now false f)
  unfolding check_for_updates
  check-Quiet now f d = Holds-bind _ _ (Holds-modify _ (λ c q. q)) (λ u.
      Holds-finally _ _ (Holds-attempt _ _ (read_response-Quiet now f d) check_failed-Quiet)
        (Holds-modify _ (λ c q. q)))

-- the checks that run by themselves, one after the other
pub check_all : String → List Fetched → Checker → Checker
check_all now [] c = c
check_all now (f ∷ fs) c = check_all now fs (left (check_for_updates false now false f c))

check_all-Quiet :
    (version now : String) (fs : List Fetched) (c : Checker)
    → All (OfVersion version) fs
    → Quiet version c
    → Quiet version (check_all now fs c)
unfolding check_all
check_all-Quiet version now [] c d q = q
check_all-Quiet version now (f ∷ fs) c d q =
    check_all-Quiet version now fs (left (check_for_updates false now false f c)) d.1
      ((check-Quiet version now f d.0).at c q)

dismiss-Quiet :
    (r : Release) (c : Checker)
    → c.latest_release ≡ some r
    → Quiet r.version (left (dismiss_update true c))
unfolding dismiss_update
dismiss-Quiet r c found = rw (left-modify, found) (refl, refl)

-- After a release is dismissed for good, no automatic check shows it again, as long as the checks fail
-- or find the same version.
pub dismiss_update-Quiet :
    (r : Release) (now : String) (fs : List Fetched) (c : Checker)
    → c.latest_release ≡ some r
    → All (OfVersion r.version) fs
    → (check_all now fs (left (dismiss_update true c))).update_available ≡ false
dismiss_update-Quiet r now fs c found d =
    (check_all-Quiet r.version now fs (left (dismiss_update true c)) d (dismiss-Quiet r c found)).1
