-- ===== src/Text.antt =====
-- What the code uses of texts: \s, `trim`, `includes` and `split` by a character.
pub mod Splitting
use text.Mathlib.Text.{starts_with}
use Prim.Native.Char.{Char, code}
use laap.Base.{List, [], ◌∷◌, ℕ, ℕ, Bool, String, if◌then◌else◌, leb, nat_eq, ◌&&◌, ◌==◌, ◌||◌}

-- \s
abbrev pub is_space : ℕ → Bool
is_space c =
    nat_eq c 32
    || (leb 9 c && leb c 13
        || (nat_eq c 160
            || (nat_eq c 5760
                || (leb 8192 c && leb c 8202
                    || (nat_eq c 8232
                        || (nat_eq c 8233
                            || (nat_eq c 8239
                                || (nat_eq c 8287 || (nat_eq c 12288 || nat_eq c 65279)))))))))

abbrev pub skip_spaces : String → String
skip_spaces String.[] = ""
skip_spaces (String.◌∷◌ c s) = if is_space (code c) then skip_spaces s else String.◌∷◌ c s

-- without the spaces at the end
abbrev trim_end : String → String
trim_end String.[] = ""
trim_end (String.◌∷◌ c s) =
    let rest = trim_end s in if is_space (code c) && rest == "" then "" else String.◌∷◌ c rest

abbrev pub trim : String → String
trim t = trim_end (skip_spaces t)

-- `text.includes(pattern)`
abbrev pub includes : String → String → Bool
includes pattern String.[] = starts_with "" pattern
includes pattern (String.◌∷◌ c t) = starts_with (String.◌∷◌ c t) pattern || includes pattern t

abbrev pub push_head : Char → List String → List String
push_head c [] = String.◌∷◌ c "" ∷ []
push_head c (part ∷ parts) = String.◌∷◌ c part ∷ parts

-- `split` by the character of this code
unfoldable pub split : ℕ → String → List String
split separator String.[] = "" ∷ []
split separator (String.◌∷◌ c t) =
    let rest = split separator t in
    if nat_eq (code c) separator then "" ∷ rest else push_head c rest
