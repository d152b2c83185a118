-- ===== src/Jamule/Password.antt =====
-- jamule/password.py: what aMule expects in EC_TAG_PASSWD_HASH. MD5 is a parameter.
use amarr.Prelude.{ℕ, zero, suc, ◌+◌, ◌/◌, ◌%◌, ◌^◌, [], ◌∷◌, ◌++◌, ltb, if◌then◌else◌}
use amarr.Py.Result.{Result, ok, ◌>>=◌}
use amarr.Py.Seq.{Bytes, Text}
use amarr.Py.Utf8.{encode}
use amarr.Jamule.Hex.{hex}

abbrev upper_digit : ℕ → ℕ
upper_digit n = if ltb n 10 then 48 + n else 55 + n

-- The last digits of a number, in upper case, before the text `t`
abbrev upper_hex : ℕ → ℕ → Text → Text
upper_hex zero n t = t
upper_hex (suc digits) n t = upper_hex digits (n / 16) (upper_digit (n % 16) ∷ t)

-- `format(salt & 0xFFFFFFFFFFFFFFFF, "016X")`: 64 bits never have more than 16 digits.
unfoldable pub salt_hex_upper : ℕ → Text
salt_hex_upper salt = upper_hex 16 (salt % 2 ^ 64) []

-- `hash_password`. The texts that MD5 gives are ASCII, so that encoding them changes nothing.
unfoldable pub hash_password : (Bytes → Bytes) → Text → ℕ → Result Bytes
hash_password md5 password salt = do
  let salt_hash = md5 (salt_hex_upper salt)
  encoded ← encode password
  let password_hash = md5 encoded
  ok (md5 (hex password_hash ++ hex salt_hash))
