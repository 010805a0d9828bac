-- ===== src/Http/Cookies/RoundTrip.antt =====
-- The token of a cookie that comes back.
use Prim.Native.Char.{code}
use Prim.Native.String.{◌++◌}
use text.Mathlib.TextLemmas.{nil-append, cons-append, append_assoc}
use text.Mathlib.TextEquality.{eq_iff, starts_with_iff}
use laap.Base.{
  Bool-cases, inl, inr, ◌==◌, if◌then◌else◌, arith, All, Bool, List, Option, String, [], false,
  none, some, sym, true, refl, ◌≡◌, ◌≢◌, ◌∙◌, ◌∷◌, ap,
}
use laap.Text.{is_space, split, trim}
use laap.Text.Splitting.{
  Every, Every-append, Lacks, split-last, split-part, trim-Unspaced, Unspaced,
}
use laap.Http.Cookies.{
  after_equals, cookie_name, find_access, is_access, read_cookie, set_access_cookie,
}

-- no space and no semicolon
abbrev pub Token : String → Type 0
Token = Every (λ c. (is_space (code c) ≡ false) × (code c ≢ 59))

-- a cookie of another name
abbrev pub Other : String → Type 0
Other pair = Lacks 59 pair × (is_access (trim pair) ≡ false)

-- the header `Cookie`: other cookies, then the pair, then what follows it
abbrev pub header : List String → String → Option String → String
header [] pair none = pair
header [] pair (some rest) = pair ++ String.◌∷◌ ";" rest
header (o ∷ others) pair rest = o ++ String.◌∷◌ ";" (String.◌∷◌ " " (header others pair rest))

Lacks-of_Token : (s : String) → Token s → Lacks 59 s
Lacks-of_Token String.[] h = tt
Lacks-of_Token (String.◌∷◌ c s) h = (h.0.1, Lacks-of_Token s h.1)

Unspaced-of_Token : (s : String) → Token s → Unspaced s
Unspaced-of_Token String.[] h = tt
Unspaced-of_Token (String.◌∷◌ c s) h = (h.0.0, Unspaced-of_Token s h.1)

-- what stands before a part
record Lead (lead : String) : Type 0 where
  lacks : Lacks 59 lead
  trimmed : (x : String) → trim (lead ++ x) ≡ trim x

nothing : Lead ""
nothing = record { lacks = tt; trimmed = λ x. rw nil-append refl }

one_space : Lead " "
one_space = record { lacks = omega arith; trimmed = λ x. rw (cons-append, nil-append) refl }

find-header :
    (lead : String) (others : List String) (pair : String) (rest : Option String)
    → Lead lead
    → All Other others
    → Token pair
    → is_access pair ≡ true
    → find_access (split 59 (lead ++ header others pair rest)) ≡ some pair
find-header lead [] pair none l h t e =
    let lacks = Every-append _ lead pair l.lacks (Lacks-of_Token pair t) in
    rw
      (
        split-last 59 (lead ++ pair) lacks,
        l.trimmed pair,
        trim-Unspaced pair (Unspaced-of_Token pair t),
        e,
      )
      refl
find-header lead [] pair (some rest) l h t e =
    let lacks = Every-append _ lead pair l.lacks (Lacks-of_Token pair t) in
    rw
      (
        sym (append_assoc lead pair (String.◌∷◌ ";" rest)),
        split-part 59 ";" (lead ++ pair) rest refl lacks,
        l.trimmed pair,
        trim-Unspaced pair (Unspaced-of_Token pair t),
        e,
      )
      refl
find-header lead (o ∷ others) pair rest l h t e =
    let next = String.◌∷◌ " " (header others pair rest) in
    let found =
      rw (cons-append, nil-append) at (find-header " " others pair rest one_space h.1 t e) in
    rw
      (
        sym (append_assoc lead o (String.◌∷◌ ";" next)),
        split-part 59 ";" (lead ++ o) next refl (Every-append _ lead o l.lacks h.0.0),
        l.trimmed o,
        h.0.1,
      )
      found

after_equals-part : (s t : String) → Lacks 61 s → after_equals (s ++ String.◌∷◌ "=" t) ≡ some t
after_equals-part String.[] t h = rw nil-append refl
after_equals-part (String.◌∷◌ c s) t h =
    let rest = after_equals-part s t h.1 in rw cons-append (ground (arith, rest))

abbrev pair_of : Bool → String → String
pair_of secure token = cookie_name secure ++ "=" ++ token

name-Token : (secure : Bool) → Token (cookie_name secure)
name-Token true = ground arith
name-Token false = ground arith

pair-Token : (secure : Bool) (token : String) → Token token → Token (pair_of secure token)
pair-Token secure token t =
    Every-append _ (cookie_name secure) ("=" ++ token) (name-Token secure)
      (Every-append _ "=" token ((refl, omega arith), tt) t)

pair-is_access : (secure : Bool) (token : String) → is_access (pair_of secure token) ≡ true
pair-is_access true token =
    let named =
      (starts_with_iff (pair_of true token) "__Host-laap_access=").1
        (token, append_assoc "__Host-laap_access" "=" token) in
    ground (arith, named)
pair-is_access false token =
    let named =
      (starts_with_iff (pair_of false token) "laap_access=").1
        (token, append_assoc "laap_access" "=" token) in
    rw named refl

name-Lacks : (secure : Bool) → Lacks 61 (cookie_name secure)
name-Lacks true = ground arith
name-Lacks false = ground arith

pair-after : (secure : Bool) (token : String) → after_equals (pair_of secure token) ≡ some token
pair-after secure token =
    let equals : "=" ++ token ≡ String.◌∷◌ "=" token = rw (cons-append, nil-append) refl in
    rw equals (after_equals-part (cookie_name secure) token (name-Lacks secure))

set_access_cookie-pair :
    (token max_age : String) (secure : Bool)
    → (attributes : String) × (set_access_cookie token secure max_age
        ≡ pair_of secure token ++ String.◌∷◌ ";" attributes)
unfolding set_access_cookie
set_access_cookie-pair token max_age secure = (
  " HttpOnly; SameSite=Lax; Path=/; Max-Age=" ++ max_age ++ (if secure then "; Secure" else ""),
  ap (λ x. pair_of secure token ++ x) (cons-append ";" _ _),
)

-- a header with a cookie in it is not empty
read_found :
    (text pair : String)
    → find_access (split 59 text) ≡ some pair
    → read_cookie (some text) ≡ after_equals pair
unfolding read_cookie split
read_found text pair e = elim (Bool-cases (text == "")) [
  | inl empty ↦ let none_found = rw ((eq_iff text "").0 empty) at e in ground (arith, none_found)
  | inr some_text ↦ rw (some_text, e) refl
]

-- The token of the cookie that a sign-in sets is the one that the next request is read to have, over
-- HTTPS or not, whichever other cookies come before it, none of them under one of the two names of the
-- access cookie, and whatever comes after it, where the browser
-- sends what stands before the first semicolon of the cookie that was set, and the token has no
-- space and no semicolon.
pub read_cookie-set_access_cookie :
    (browser : String → String) (token max_age : String) (secure : Bool) (others : List String)
    (rest : Option String)
    → ((pair attributes : String)
        → Lacks 59 pair
        → browser (pair ++ String.◌∷◌ ";" attributes) ≡ pair)
    → Token token
    → All Other others
    → read_cookie (some (header others (browser (set_access_cookie token secure max_age)) rest))
      ≡ some token
read_cookie-set_access_cookie browser token max_age secure others rest sends t o =
    let (attributes, e) = set_access_cookie-pair token max_age secure in
    let whole = pair-Token secure token t in
    let pair = pair_of secure token in
    let sent = sends pair attributes (Lacks-of_Token pair whole) in
    let found =
      rw nil-append at
        (find-header "" others pair rest nothing o whole (pair-is_access secure token)) in
    rw (e, sent) (read_found (header others pair rest) pair found ∙ pair-after secure token)
