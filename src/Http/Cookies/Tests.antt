-- ===== src/Http/Cookies/Tests.antt =====
-- Cookies.
use Prim.Native.String.{◌++◌}
use text.Mathlib.TextLemmas.{nil-append, cons-append}
use laap.Base.{arith, ◌∷◌, [], nat_eq, String, none, some, true, refl, ◌≡◌, if◌then◌else◌}
use Prim.Native.Char.{code}
use laap.Text.Splitting.{Lacks}
use laap.Text.{split}
use laap.Http.Cookies.{set_access_cookie, read_cookie}
use laap.Http.Cookies.RoundTrip.{header, read_cookie-set_access_cookie}

-- what stands before the first semicolon
abbrev before_semicolon : String → String
before_semicolon String.[] = ""
before_semicolon (String.◌∷◌ c t) =
    let rest = before_semicolon t in if nat_eq (code c) 59 then "" else String.◌∷◌ c rest

before_lem :
    (pair attributes : String)
    → Lacks 59 pair
    → before_semicolon (pair ++ String.◌∷◌ ";" attributes) ≡ pair
before_lem String.[] attributes h = rw nil-append refl
before_lem (String.◌∷◌ c s) attributes h =
    let rest = before_lem s attributes h.1 in rw cons-append (ground (arith, rest))

read_cookie-set_access_cookie_example :
    read_cookie (
      some (
        header ("theme=dark" ∷ []) (before_semicolon (set_access_cookie "ey.J.x" true "900")) none))
    ≡ some "ey.J.x"
read_cookie-set_access_cookie_example =
    read_cookie-set_access_cookie before_semicolon "ey.J.x" "900" true ("theme=dark" ∷ []) none
      before_lem (ground arith) (ground arith)

-- a site over HTTPS reads a cookie of the other name too, where it comes first
other_name : read_cookie (some "laap_access=planted; __Host-laap_access=ey.J.x") ≡ some "planted"
unfolding read_cookie split
other_name = refl
