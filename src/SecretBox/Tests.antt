-- ===== src/SecretBox/Tests.antt =====
-- A round trip under a cipher that hides nothing.
use Prim.Native.String.{String}
use mathlib.Core.Path.{◌≡◌, refl}
use mathlib.Core.Option.{some}
use native.Mathlib.Omega.{arith}
use text.Mathlib.Text.{◌==◌}
use laap.Base.{if◌then◌else◌}
use laap.SecretBox.{Cipher, encrypt_secret, decrypt_secret, opened, js_length}
use laap.SecretBox.RoundTrip.{decrypt-encrypt}

abbrev key : String
key = "0123456789abcdef0123456789abcdef"

abbrev clear : Cipher
clear = record {
  seal = λ k c value. record { iv = "i"; tag = "t"; body = value };
  unseal = λ k c e. some e.body;
  byte_length = λ t. if t == "i" then 12 else 16;
}

decrypt-encrypt_example :
    (stored : String) × (encrypt_secret clear "blob" key "account:a1" ≡ some stored)
    × (decrypt_secret clear stored key "account:a1" ≡ opened "blob")
unfolding js_length
decrypt-encrypt_example =
    decrypt-encrypt clear "blob" key "account:a1" refl (omega arith, tt) (omega arith, tt)
      (omega arith, (omega arith, (omega arith, (omega arith, tt)))) refl refl refl
