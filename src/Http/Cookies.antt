-- ===== src/Http/Cookies.antt =====
-- The cookie of a signed-in browser: setAccessCookie, clearAccessCookie and readCookie of
-- apps/api/src/http/auth.ts. `Max-Age` is the text of the number of seconds.
pub mod RoundTrip
mod Tests
use text.Mathlib.Text.{starts_with}
use Prim.Native.Char.{code}
use Prim.Native.String.{◌++◌}
use laap.Base.{
  Bool, List, Option, String, [], false, if◌then◌else◌, nat_eq, none, some, true, ◌==◌, ◌||◌, ◌∷◌,
}
use laap.Text.{split, trim}

-- `productionCookieName` where the site is secure, else `developmentCookieName`
abbrev pub cookie_name : Bool → String
cookie_name true = "__Host-laap_access"
cookie_name false = "laap_access"

-- `cookieOptions` with the value in the place of `VALUE`; a token has no `$` for `replace` to read
abbrev pub with_options : String → String → Bool → String
with_options pair max_age secure =
    pair
    ++ "; HttpOnly; SameSite=Lax; Path=/; Max-Age="
    ++ max_age
    ++ (if secure then "; Secure" else "")

-- the header `Set-Cookie` of `setAccessCookie`
pub set_access_cookie : String → Bool → String → String
set_access_cookie token secure max_age =
    with_options (cookie_name secure ++ "=" ++ token) max_age secure

-- and of `clearAccessCookie`
pub clear_access_cookie : Bool → String
clear_access_cookie secure = with_options (cookie_name secure ++ "=") "0" secure

-- the cookie has one of the two names
abbrev pub is_access : String → Bool
is_access pair = starts_with pair "laap_access=" || starts_with pair "__Host-laap_access="

-- `find` over the parts without the spaces around them
abbrev pub find_access : List String → Option String
find_access [] = none
find_access (part ∷ parts) =
    let rest = find_access parts in if is_access (trim part) then some (trim part) else rest

-- `slice(indexOf('=') + 1)`, and undefined where there is none
abbrev pub after_equals : String → Option String
after_equals String.[] = none
after_equals (String.◌∷◌ c t) =
    let rest = after_equals t in if nat_eq (code c) 61 then some t else rest

abbrev value_of : Option String → Option String
value_of none = none
value_of (some pair) = after_equals pair

-- `readCookie`
pub read_cookie : Option String → Option String
read_cookie none = none
read_cookie (some header) = if header == "" then none else value_of (find_access (split 59 header))
