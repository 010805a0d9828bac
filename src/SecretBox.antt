-- ===== src/SecretBox.antt =====
-- apps/api/src/services/secret-box.ts: the envelope in which session blobs are stored. AES-256-GCM,
-- SHA-256 and base64url of Node are the parameter `Cipher`.
pub mod RoundTrip
mod Tests
use Prim.Native.Nat.{ℕ, ◌+◌}
use Prim.Native.Char.{Char, code}
use Prim.Native.String.{String, [], ◌∷◌, ◌++◌}
use mathlib.Core.Bool.{Bool, ◌&&◌}
use mathlib.Core.List.{List}
use mathlib.Core.Option.{Option, none, some}
use text.Mathlib.Text.{starts_with, ◌==◌ as str_eq}
use laap.Base.{leb, ltb, if◌then◌else◌, nat_eq}

-- The three base64url texts of an envelope.
pub record Sealed : Type 0 where
  pub iv : String
  pub tag : String
  pub body : String

-- One draw of `randomBytes` with Node's cipher. `unseal` is `none` where `decipher.final()` throws.
pub record Cipher : Type 0 where
  pub seal : String → String → String → Sealed
  pub unseal : String → String → Sealed → Option String
  pub byte_length : String → ℕ

-- A code point past 0xffff is two units of a JavaScript string.
abbrev units : ℕ → ℕ
units c = if ltb c 65536 then 1 else 2

-- `text.length`
unfoldable pub js_length : String → ℕ
js_length [] = 0
js_length (c ∷ s) = units (code c) + js_length s

abbrev pub key_is_long : String → Bool
key_is_long secret = leb 32 (js_length secret)

abbrev pub key_error : String
key_error = "LAAP vault key must contain at least 32 characters"

abbrev pub envelope_error : String
envelope_error = "Stored secret envelope is invalid"

-- `[PREFIX, iv, tag, body].join(':')`
abbrev pub envelope : Sealed → String
envelope e = "laap:v1:" ++ e.iv ++ ":" ++ e.tag ++ ":" ++ e.body

-- `none` where `deriveKey` throws
unfoldable pub encrypt_secret : Cipher → String → String → String → Option String
encrypt_secret cipher value secret context =
    if key_is_long secret then some (envelope (cipher.seal secret context value)) else none

abbrev push_head : Char → List String → List String
push_head c List.[] = List.◌∷◌ (c ∷ []) List.[]
push_head c (List.◌∷◌ part parts) = List.◌∷◌ (c ∷ part) parts

-- `text.split(':')`
unfoldable pub split_colon : String → List String
split_colon [] = List.◌∷◌ [] List.[]
split_colon (c ∷ s) =
    let rest = split_colon s in if nat_eq (code c) b':' then List.◌∷◌ [] rest else push_head c rest

pub data Decrypted : Type 0 where
  legacy opened failed : String → Decrypted

abbrev or_failed : Option String → Decrypted
or_failed none = failed "Unsupported state or unable to authenticate data"
or_failed (some value) = opened value

open_sealed : Cipher → String → String → Sealed → Decrypted
open_sealed cipher secret context e =
    if nat_eq (cipher.byte_length e.iv) 12 && nat_eq (cipher.byte_length e.tag) 16
    then if key_is_long secret then or_failed (cipher.unseal secret context e) else failed key_error
    else failed envelope_error

-- five parts, the first two of them the prefix
open_parts : Cipher → String → String → List String → Decrypted
open_parts cipher secret context
      (List.◌∷◌ p (List.◌∷◌ q (List.◌∷◌ iv (List.◌∷◌ tag (List.◌∷◌ body List.[]))))) =
    if str_eq p "laap" && str_eq q "v1"
    then open_sealed cipher secret context (record { iv = iv; tag = tag; body = body })
    else failed envelope_error
open_parts cipher secret context _ = failed envelope_error

unfoldable pub decrypt_secret : Cipher → String → String → String → Decrypted
unfolding open_parts open_sealed split_colon
decrypt_secret cipher value secret context =
    if starts_with value "laap:v1:"
    then open_parts cipher secret context (split_colon value)
    else legacy value
