-- ===== src/Py/Base32.antt =====
-- `base64.b32encode` and `base64.b32decode`.
pub mod RoundTrip
use amarr.Prelude.{
  ℕ, zero, suc, ◌+◌, ◌-◌, ◌*◌, ◌/◌, ◌%◌, ◌^◌, ◌<◌, ◌≡◌, refl, ap, sym, Bool, true, false, not, ◌&&◌,
  ◌||◌, List, [], ◌∷◌, ◌++◌, arith, ltb, leb, ◌==◌, if◌then◌else◌, length, take, drop,
}
use amarr.Py.Result.{Result, ok, err, value_error, ◌>>=◌, ◌>>◌, guard}
use amarr.Py.Seq.{Bytes, Text}
use amarr.Py.Struct.{be_bytes, of_be}
use amarr.Py.Decimal.{rstrip}

abbrev pub b32_char : ℕ → ℕ
b32_char n = if ltb n 26 then 65 + n else 24 + n

-- The eight characters of a number below 2 ^ 40.
unfoldable pub b32_quanta : ℕ → Text
b32_quanta n =
    b32_char (n / 2 ^ 35 % 32)
    ∷ b32_char (n / 2 ^ 30 % 32)
    ∷ b32_char (n / 2 ^ 25 % 32)
    ∷ b32_char (n / 2 ^ 20 % 32)
    ∷ b32_char (n / 2 ^ 15 % 32)
    ∷ b32_char (n / 2 ^ 10 % 32)
    ∷ b32_char (n / 2 ^ 5 % 32)
    ∷ b32_char (n % 32)
    ∷ []

-- An incomplete group is filled with zeros, and its last characters become `=`.
unfoldable pub b32encode : Bytes → Text
b32encode [] = []
b32encode (a ∷ []) =
    take 2 (b32_quanta (of_be 0 (a ∷ 0 ∷ 0 ∷ 0 ∷ 0 ∷ []))) ++ 61 ∷ 61 ∷ 61 ∷ 61 ∷ 61 ∷ 61 ∷ []
b32encode (a ∷ b ∷ []) =
    take 4 (b32_quanta (of_be 0 (a ∷ b ∷ 0 ∷ 0 ∷ 0 ∷ []))) ++ 61 ∷ 61 ∷ 61 ∷ 61 ∷ []
b32encode (a ∷ b ∷ c ∷ []) =
    take 5 (b32_quanta (of_be 0 (a ∷ b ∷ c ∷ 0 ∷ 0 ∷ []))) ++ 61 ∷ 61 ∷ 61 ∷ []
b32encode (a ∷ b ∷ c ∷ d ∷ []) = take 7 (b32_quanta (of_be 0 (a ∷ b ∷ c ∷ d ∷ 0 ∷ []))) ++ 61 ∷ []
b32encode (a ∷ b ∷ c ∷ d ∷ e ∷ bs) = b32_quanta (of_be 0 (a ∷ b ∷ c ∷ d ∷ e ∷ [])) ++ b32encode bs

abbrev pub b32_value : ℕ → Result ℕ
b32_value c =
    if leb 65 c && leb c 90
    then ok (c - 65)
    else if leb 50 c && leb c 55
    then ok (c - 24)
    else err value_error

-- The number of a group that may be short.
unfoldable pub b32_number : ℕ → Text → Result ℕ
b32_number acc [] = ok acc
b32_number acc (c ∷ cs) = do v ← b32_value c; b32_number (acc * 32 + v) cs

-- The bytes of all groups, and the number of the last.
unfoldable pub b32_groups : Text → Result (Bytes × ℕ)
b32_groups (a ∷ b ∷ c ∷ d ∷ e ∷ f ∷ g ∷ h ∷ cs) = do
  n ← b32_number 0 (a ∷ b ∷ c ∷ d ∷ e ∷ f ∷ g ∷ h ∷ [])
  (bs, last) ← b32_groups cs
  ok (be_bytes 5 n ++ bs, elim cs [ [] ↦ n | _ ↦ last ])
b32_groups [] = ok ([], 0)
b32_groups cs = do n ← b32_number 0 cs; ok (be_bytes 5 n, n)

abbrev padding_allowed : ℕ → Bool
padding_allowed p = p == 0 || p == 1 || p == 3 || p == 4 || p == 6

abbrev cut_padding : ℕ → Bytes × ℕ → Bytes
cut_padding padding (bs, last) =
    if padding == 0 || length bs == 0
    then bs
    else take (length bs - 5) bs
      ++ take ((43 - 5 * padding) / 8) (be_bytes 5 (last * 2 ^ (5 * padding)))

-- `binascii.Error` is a `ValueError`.
unfoldable pub b32decode : Text → Result Bytes
b32decode t = do
  guard (length t % 8 == 0) value_error
  let s = rstrip 61 t
  decoded ← b32_groups s
  guard (padding_allowed (length t - length s)) value_error
  ok (cut_padding (length t - length s) decoded)
