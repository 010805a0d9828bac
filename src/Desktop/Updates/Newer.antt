-- ===== src/Desktop/Updates/Newer.antt =====
-- `isNewerVersion` is a strict order.
use laap.Base.{
  Bool, Bool-cases, String, arith, false, inl, inr, refl, true, ◌≡◌, ◌≢◌, if◌then◌else◌, not,
}
use laap.Desktop.Sorting.{Sign, after, before, opposite, or_else, same}
use laap.Desktop.Sorting.Comparisons.{Lawful, on-Lawful, or_else-Lawful}
use laap.Desktop.Updates.{
  ℤ, Version, eq_int, gt_int, is_newer_version, pos, negsuc, newer, parse_semver,
}

abbrev compare_ints : ℤ → ℤ → Sign
compare_ints a b = if eq_int a b then same else if gt_int a b then after else before

ints-flipped : (a b : ℤ) → compare_ints b a ≡ opposite (compare_ints a b)
ints-flipped (pos a) (pos b) = ground arith
ints-flipped (pos a) (negsuc b) = refl
ints-flipped (negsuc a) (pos b) = refl
ints-flipped (negsuc a) (negsuc b) = ground arith

ints-chained :
    (a b d : ℤ) → compare_ints a b ≢ after → compare_ints b d ≢ after → compare_ints a d ≢ after
ints-chained (pos a) (pos b) (pos d) h k = ground arith
ints-chained (pos a) (pos b) (negsuc d) h k = absurd (k refl)
ints-chained (pos a) (negsuc b) d h k = absurd (h refl)
ints-chained (negsuc a) (pos b) (pos d) h k = ground arith
ints-chained (negsuc a) (pos b) (negsuc d) h k = absurd (k refl)
ints-chained (negsuc a) (negsuc b) (pos d) h k = ground arith
ints-chained (negsuc a) (negsuc b) (negsuc d) h k = ground arith

ints-Lawful : Lawful compare_ints
ints-Lawful = record { flipped = ints-flipped; chained = ints-chained }

abbrev compare_versions : Version → Version → Sign
compare_versions r c =
    or_else (compare_ints r.major c.major)
      (or_else (compare_ints r.minor c.minor) (compare_ints r.patch c.patch))

versions-Lawful : Lawful compare_versions
versions-Lawful =
    or_else-Lawful (λ r c. compare_ints r.major c.major)
      (λ r c. or_else (compare_ints r.minor c.minor) (compare_ints r.patch c.patch))
      (on-Lawful (λ (v : Version). v.major) compare_ints ints-Lawful)
      (or_else-Lawful (λ r c. compare_ints r.minor c.minor) (λ r c. compare_ints r.patch c.patch)
        (on-Lawful (λ (v : Version). v.minor) compare_ints ints-Lawful)
        (on-Lawful (λ (v : Version). v.patch) compare_ints ints-Lawful))

abbrev is_after : Sign → Bool
is_after after = true
is_after _ = false

gt_not_eq : (a b : ℤ) → gt_int a b ≡ true → eq_int a b ≡ false
gt_not_eq (pos a) (pos b) h = ground arith
gt_not_eq (pos a) (negsuc b) h = refl
gt_not_eq (negsuc a) (pos b) h = refl
gt_not_eq (negsuc a) (negsuc b) h = ground arith

gt-after : (a b : ℤ) → gt_int a b ≡ is_after (compare_ints a b)
gt-after a b = elim (Bool-cases (gt_int a b)) [
  | inl more ↦ rw (gt_not_eq a b more, more) refl
  | inr less ↦ elim (Bool-cases (eq_int a b)) [
    | inl even ↦ rw (even, less) refl
    | inr under ↦ rw (under, less) refl
  ]
]

-- where the first parts differ they decide
first_decides :
    (e g : Bool) (s : Sign) (rest : Bool)
    → rest ≡ is_after s
    → (if not e then g else rest)
      ≡ is_after (or_else (if e then same else if g then after else before) s)
first_decides true g s rest h = h
first_decides false true s rest h = refl
first_decides false false s rest h = refl

newer-after : (r c : Version) → newer r c ≡ is_after (compare_versions r c)
newer-after r c =
    first_decides (eq_int r.major c.major) (gt_int r.major c.major)
      (or_else (compare_ints r.minor c.minor) (compare_ints r.patch c.patch)) _
      (first_decides (eq_int r.minor c.minor) (gt_int r.minor c.minor)
        (compare_ints r.patch c.patch) _ (gt-after r.patch c.patch))

module _ {A : Type 0} (c : A → A → Sign) (l : Lawful c) where
  strict : (a : A) → is_after (c a a) ≡ false
  strict a = ground (arith, l.flipped a a)

  one_way : (a b : A) → is_after (c a b) ≡ true → is_after (c b a) ≡ false
  one_way a b h = ground (arith, l.flipped a b)

  onward : (a b d : A) → is_after (c a b) ≡ true → is_after (c b d) ≡ true → is_after (c a d) ≡ true
  onward a b d h k =
      ground (arith, l.chained d b a, l.chained a d b, l.flipped a b, l.flipped b d, l.flipped a d)

-- A version that is newer than one that is newer than a third is newer than the third; the second is then not
-- newer than the first, and no version is newer than itself.
pub is_newer_version-order :
    (a b d : String)
    → is_newer_version a b ≡ true
    → is_newer_version b d ≡ true
    → (is_newer_version a d ≡ true)
      × (is_newer_version b a ≡ false)
      × (is_newer_version a a ≡ false)
unfolding is_newer_version
is_newer_version-order a b d h k =
    let u = parse_semver a in
    let v = parse_semver b in
    let w = parse_semver d in
    rw (newer-after u w, newer-after v u, newer-after u u)
      (
        onward compare_versions versions-Lawful u v w (rw (newer-after u v) at h)
            (rw (newer-after v w) at k),
        one_way compare_versions versions-Lawful u v (rw (newer-after u v) at h),
        strict compare_versions versions-Lawful u,
      )
