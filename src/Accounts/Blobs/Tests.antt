-- ===== src/Accounts/Blobs/Tests.antt =====
-- A blob saved and fetched under a cipher that hides nothing.
use laap.Base.{String, some, refl, arith, if◌then◌else◌, ◌==◌, ◌≡◌}
use laap.Accounts.Blobs.{get_account_session_blob, save_account_session_blob}
use laap.Accounts.Blobs.RoundTrip.{get_account_session_blob-save}
use laap.Base.Rows.{distinct_by, exists_where, find_where}
use laap.Exec.{ok}
use laap.Samples.{at_time, held, leased, nova}
use laap.Schema.{Db, accounts_ok}
use laap.SecretBox.{Cipher, js_length}

abbrev vault_key : String
vault_key = "0123456789abcdef0123456789abcdef"

abbrev bare : Cipher
bare = record {
  seal = λ k c value. record { iv = "i"; tag = "t"; body = value };
  unseal = λ k c e. some e.body;
  byte_length = λ t. if t == "i" then 12 else 16;
}

get_account_session_blob-save_example :
    (db' : Db) × (save_account_session_blob bare vault_key
        (at_time 3000000 "x")
        "u0"
        "a1"
        "cookie"
        leased
      ≡ ok tt db')
    × (get_account_session_blob bare vault_key (at_time 3000001 "y") "u1" "s1" db'
        ≡ ok "cookie" db')
unfolding js_length accounts_ok find_where distinct_by exists_where
get_account_session_blob-save_example =
    get_account_session_blob-save bare vault_key (at_time 3000000 "x") (at_time 3000001 "y") "u0"
      "u1" "s1" "cookie" leased held nova refl (omega arith, tt) (omega arith, tt)
      (omega arith, (omega arith, (omega arith, (omega arith, (omega arith, (omega arith, tt))))))
      refl refl refl refl refl refl
