-- ===== src/Text/Splitting.antt =====
-- The parts of a text that was joined, and `trim` of a text without spaces.
use Prim.Native.Char.{Char, code}
use Prim.Native.String.{String, [], ◌∷◌, ◌++◌}
use text.Mathlib.TextLemmas.{nil-append, cons-append}
use laap.Base.{arith, ◌≡◌, ◌≢◌, refl, true, false, ℕ, List, nat_eq}
use laap.Text.{split, skip_spaces, trim, trim_end, is_space}

-- every character of the text
abbrev pub Every : (Char → Type 0) → String → Type 0
Every P [] = Unit
Every P (c ∷ s) = P c × Every P s

pub Every-append : (P : Char → Type 0) (s t : String) → Every P s → Every P t → Every P (s ++ t)
Every-append P [] t h k = rw nil-append k
Every-append P (c ∷ s) t h k = rw cons-append (h.0, Every-append P s t h.1 k)

abbrev pub Lacks : ℕ → String → Type 0
Lacks separator = Every (λ c. code c ≢ separator)

abbrev pub Unspaced : String → Type 0
Unspaced = Every (λ c. is_space (code c) ≡ false)

-- A text without the separator is the first part of what follows it.
pub split-part :
    (n : ℕ) (d : Char) (s t : String)
    → nat_eq (code d) n ≡ true
    → Lacks n s
    → split n (s ++ d ∷ t) ≡ List.◌∷◌ s (split n t)
unfolding split
split-part n d [] t e h = rw (nil-append, e) refl
split-part n d (c ∷ s) t e h =
    let rest = split-part n d s t e h.1 in rw cons-append (ground (arith, rest))

pub split-last : (n : ℕ) (s : String) → Lacks n s → split n s ≡ List.◌∷◌ s List.[]
unfolding split
split-last n [] h = refl
split-last n (c ∷ s) h = let rest = split-last n s h.1 in ground (arith, rest)

skip_spaces-Unspaced : (s : String) → Unspaced s → skip_spaces s ≡ s
skip_spaces-Unspaced [] h = refl
skip_spaces-Unspaced (c ∷ s) h = rw h.0 refl

trim_end-Unspaced : (s : String) → Unspaced s → trim_end s ≡ s
trim_end-Unspaced [] h = refl
trim_end-Unspaced (c ∷ s) h = rw (h.0, trim_end-Unspaced s h.1) refl

pub trim-Unspaced : (s : String) → Unspaced s → trim s ≡ s
trim-Unspaced s h = rw (skip_spaces-Unspaced s h, trim_end-Unspaced s h) refl
