-- ===== src/Desktop/Sorting/Comparisons.antt =====
-- Comparisons that order: the laws, and how they pass from the parts to the whole.
use laap.Base.{Option, arith, none, some, ℕ, ◌≡◌, ◌≢◌, refl}
use laap.Desktop.Sorting.{Sign, after, before, compare_numbers, opposite, or_else, ranked, same}

-- a total preorder, as a comparison
pub record Lawful {A : Type 0} (c : A → A → Sign) : Type 0 where
  pub flipped : (a b : A) → c b a ≡ opposite (c a b)
  pub chained : (a b d : A) → c a b ≢ after → c b d ≢ after → c a d ≢ after

module _ {A : Type 0} where
  pub or_else-Lawful :
      (c d : A → A → Sign) → Lawful c → Lawful d → Lawful (λ a b. or_else (c a b) (d a b))
  or_else-Lawful c d lc ld = record {
    flipped = λ x y. ground (arith, lc.flipped x y, ld.flipped x y);
    chained = λ x y z p q. ground (
      arith,
      lc.chained x y z,
      lc.chained z x y,
      lc.chained y z x,
      ld.chained x y z,
      lc.flipped x y,
      lc.flipped y z,
      lc.flipped x z,
    );
  }

  pub opposite-Lawful : (c : A → A → Sign) → Lawful c → Lawful (λ a b. opposite (c a b))
  opposite-Lawful c l = record {
    flipped = λ x y. ground (arith, l.flipped x y);
    chained =
        λ x y z p q. ground (arith, l.chained z y x, l.flipped x y, l.flipped y z, l.flipped x z);
  }

  pub swapped-Lawful : (c : A → A → Sign) → Lawful c → Lawful (λ a b. c b a)
  swapped-Lawful c l = record {
    flipped = λ x y. l.flipped y x;
    chained = λ x y z p q. l.chained z y x q p;
  }

pub compare_numbers-Lawful : Lawful compare_numbers
compare_numbers-Lawful = record {
  flipped = λ x y. ground arith;
  chained = λ x y z p q. ground arith;
}

pub on-Lawful :
    {A B : Type 0} (f : A → B) (c : B → B → Sign) → Lawful c → Lawful (λ a b. c (f a) (f b))
on-Lawful f c l = record {
  flipped = λ x y. l.flipped (f x) (f y);
  chained = λ x y z. l.chained (f x) (f y) (f z);
}

-- a missing value comes last
abbrev missing_last : (ℕ → ℕ → Sign) → Option ℕ → Option ℕ → Sign
missing_last c none none = same
missing_last c none (some y) = after
missing_last c (some x) none = before
missing_last c (some x) (some y) = c x y

missing_last-flipped :
    (c : ℕ → ℕ → Sign)
    → Lawful c
    → (o p : Option ℕ) → missing_last c p o ≡ opposite (missing_last c o p)
missing_last-flipped c l none none = refl
missing_last-flipped c l none (some y) = refl
missing_last-flipped c l (some x) none = refl
missing_last-flipped c l (some x) (some y) = l.flipped x y

missing_last-chained :
    (c : ℕ → ℕ → Sign)
    → Lawful c
    → (o p q : Option ℕ) → missing_last c o p ≢ after
    → missing_last c p q ≢ after
    → missing_last c o q ≢ after
missing_last-chained c l none none none h k = h
missing_last-chained c l none none (some z) h k = k
missing_last-chained c l none (some y) q h k = absurd (h refl)
missing_last-chained c l (some x) none none h k = h
missing_last-chained c l (some x) none (some z) h k = absurd (k refl)
missing_last-chained c l (some x) (some y) none h k = k
missing_last-chained c l (some x) (some y) (some z) h k = l.chained x y z h k

ranked-or_else :
    (c : ℕ → ℕ → Sign) (o p : Option ℕ) (t : Sign) → or_else (missing_last c o p) t ≡ ranked c o p t
ranked-or_else c none none t = refl
ranked-or_else c none (some y) t = refl
ranked-or_else c (some x) none t = refl
ranked-or_else c (some x) (some y) t = refl

Lawful-eq : {A : Type 0} (c d : A → A → Sign) → ((a b : A) → c a b ≡ d a b) → Lawful c → Lawful d
Lawful-eq c d e l = record {
  flipped = λ x y. rw (← e y x, ← e x y) (l.flipped x y);
  chained = λ x y z. rw (← e x y, ← e y z, ← e x z) (l.chained x y z);
}

pub ranked-Lawful :
    {A : Type 0} (key : A → Option ℕ) (c : ℕ → ℕ → Sign) (tie : A → A → Sign)
    → Lawful c
    → Lawful tie
    → Lawful (λ a b. ranked c (key a) (key b) (tie a b))
ranked-Lawful key c tie lc lt =
    Lawful-eq (λ a b. or_else (missing_last c (key a) (key b)) (tie a b)) _
      (λ a b. ranked-or_else c (key a) (key b) (tie a b))
      (or_else-Lawful (λ a b. missing_last c (key a) (key b)) tie
        (on-Lawful key (missing_last c)
          (record { flipped = missing_last-flipped c lc; chained = missing_last-chained c lc }))
        lt)
