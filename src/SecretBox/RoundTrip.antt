-- ===== src/SecretBox/RoundTrip.antt =====
-- What the secret box seals, it opens again.
use Prim.Native.Char.{code}
use Prim.Native.String.{String, [], ◌∷◌, ◌++◌}
use mathlib.Core.List.{List}
use mathlib.Core.Path.{◌≡◌, refl, ◌∙◌}
use mathlib.Core.Logic.{◌≢◌}
use mathlib.Core.Bool.{true}
use mathlib.Core.Option.{some}
use text.Mathlib.TextEquality.{starts_with_iff}
use native.Mathlib.Omega.{arith}
use text.Mathlib.TextLemmas.{nil-append, cons-append, append_assoc}
use laap.SecretBox.{
  Sealed, Cipher, envelope, key_is_long, encrypt_secret, decrypt_secret, opened, split_colon,
}

abbrev pub NoColon : String → Type 0
NoColon [] = Unit
NoColon (c ∷ s) = (code c ≢ b':') × NoColon s

-- A text without a colon is the first part of what follows it.
split_colon-part :
    (s t : String) → NoColon s → split_colon (s ++ ":" ++ t) ≡ List.◌∷◌ s (split_colon t)
unfolding split_colon
split_colon-part [] t h = rw (nil-append, cons-append, nil-append) refl
split_colon-part (c ∷ s) t h =
    let rest = split_colon-part s t h.1 in rw cons-append (ground (arith, rest))

split_colon-last : (s : String) → NoColon s → split_colon s ≡ List.◌∷◌ s List.[]
unfolding split_colon
split_colon-last [] h = refl
split_colon-last (c ∷ s) h = ground (arith, split_colon-last s h.1)

prefix_parts : (x : String) → "laap:v1:" ++ x ≡ "laap" ++ ":" ++ ("v1" ++ ":" ++ x)
prefix_parts x =
    append_assoc "laap:v1" ":" x
    ∙ append_assoc "laap:" "v1" (":" ++ x)
    ∙ append_assoc "laap" ":" ("v1" ++ ":" ++ x)

-- The five parts of an envelope.
split_colon-envelope :
    (e : Sealed)
    → NoColon e.iv
    → NoColon e.tag
    → NoColon e.body
    → split_colon (envelope e)
      ≡ List.◌∷◌ "laap" (List.◌∷◌ "v1" (List.◌∷◌ e.iv (List.◌∷◌ e.tag (List.◌∷◌ e.body List.[]))))
split_colon-envelope e hi ht hb = rw (
  prefix_parts (e.iv ++ ":" ++ e.tag ++ ":" ++ e.body),
  split_colon-part "laap" ("v1" ++ ":" ++ e.iv ++ ":" ++ e.tag ++ ":" ++ e.body) (omega arith),
  split_colon-part "v1" (e.iv ++ ":" ++ e.tag ++ ":" ++ e.body) (omega arith),
  split_colon-part e.iv (e.tag ++ ":" ++ e.body) hi,
  split_colon-part e.tag e.body ht,
  split_colon-last e.body hb,
)

-- Under a key of 32 units or more, a sealed value is opened again, if the cipher opens under the
-- same key and context what it sealed, with an IV of 12 bytes, a tag of 16 and no colon in base64url.
pub decrypt-encrypt :
    (cipher : Cipher) (value secret context : String)
    → key_is_long secret ≡ true
    → NoColon (cipher.seal secret context value).iv
    → NoColon (cipher.seal secret context value).tag
    → NoColon (cipher.seal secret context value).body
    → cipher.byte_length (cipher.seal secret context value).iv ≡ 12
    → cipher.byte_length (cipher.seal secret context value).tag ≡ 16
    → cipher.unseal secret context (cipher.seal secret context value) ≡ some value
    → (stored : String) × (encrypt_secret cipher value secret context ≡ some stored)
      × (decrypt_secret cipher stored secret context ≡ opened value)
unfolding encrypt_secret decrypt_secret
decrypt-encrypt cipher value secret context long hi ht hb iv tag back = (
  envelope (cipher.seal secret context value),
  rw long,
  rw
      (
        (starts_with_iff (envelope (cipher.seal secret context value)) "laap:v1:").1 (_, refl),
        split_colon-envelope (cipher.seal secret context value) hi ht hb,
      )
      (ground arith),
)
