-- ===== src/Devices/Challenge.antt =====
-- `verifyDeviceChallenge` (apps/api/src/services/sqlite/device.service.ts): a device signs a nonce of a
-- time and an account.
use laap.Base.{Bool, List, Option, String, [], false, leb, nat_eq, none, some, ℕ, ◌&&◌, ◌==◌, ◌∷◌}
use laap.Db.Queries.{authorized_device}
use laap.Schema.{Db, Device}
use laap.SecretBox.{split_colon}

-- What it takes from JavaScript and Node: |now - Number(text)| rounded up, where the number is
-- finite; the bytes of a base64 text; and an Ed25519 check, false where it throws.
pub record Signatures : Type 0 where
  pub distance : String → ℕ → Option ℕ
  pub byte_length : String → ℕ
  pub verify : String → String → String → Bool

-- `const [timestampText, nonceAccountId] = nonce.split(':', 2)`
abbrev pub nonce_parts : List String → Option (String × String)
nonce_parts [] = none
nonce_parts (t ∷ []) = none
nonce_parts (t ∷ a ∷ rest) = some (t, a)

abbrev pub is_recent : Option ℕ → Bool
is_recent none = false
is_recent (some d) = leb d 300000

-- the time is within five minutes, and the account is the one of the request
abbrev pub is_fresh : Signatures → ℕ → String → Option (String × String) → Bool
is_fresh s now account_id none = false
is_fresh s now account_id (some (t, a)) = a == account_id && is_recent (s.distance t now)

abbrev signed_by : Signatures → String → String → Option Device → Bool
signed_by s nonce signature none = false
signed_by s nonce signature (some d) =
    nat_eq (s.byte_length d.public_key) 32
    && (nat_eq (s.byte_length signature) 64 && s.verify d.public_key nonce signature)

pub verify_device_challenge :
    Signatures → ℕ → String → String → String → String → String → Db → Bool
verify_device_challenge s now user_id device_id account_id nonce signature db =
    is_fresh s now account_id (nonce_parts (split_colon nonce))
    && signed_by s nonce signature (authorized_device device_id user_id db)
