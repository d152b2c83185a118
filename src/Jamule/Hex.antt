-- ===== src/Jamule/Hex.antt =====
-- `bytes.hex()` and `bytes.fromhex(text)`.
use amarr.Prelude.{
  ℕ, ◌+◌, ◌-◌, ◌*◌, ◌/◌, ◌%◌, ◌<◌, ◌≡◌, refl, ap, Bool, true, false, ◌&&◌, ◌||◌, [], ◌∷◌, arith,
  ltb, leb, ◌==◌, if◌then◌else◌,
}
use amarr.Py.Result.{Result, ok, err, value_error, ◌>>=◌}
use amarr.Py.Seq.{Bytes, Text}

abbrev hex_digit : ℕ → ℕ
hex_digit n = if ltb n 10 then 48 + n else 87 + n

unfoldable pub hex : Bytes → Text
hex [] = []
hex (b ∷ bs) = hex_digit (b / 16) ∷ hex_digit (b % 16) ∷ hex bs

abbrev digit_value : ℕ → Result ℕ
digit_value c =
    if leb 48 c && leb c 57
    then ok (c - 48)
    else if leb 97 c && leb c 102
    then ok (c - 87)
    else if leb 65 c && leb c 70
    then ok (c - 55)
    else err value_error

abbrev is_ascii_blank : ℕ → Bool
is_ascii_blank c = c == 32 || (leb 9 c && leb c 13)

-- Blanks may stand between bytes, not within one.
unfoldable pub from_hex : Text → Result Bytes
from_hex [] = ok []
from_hex (c ∷ []) = if is_ascii_blank c then ok [] else err value_error
from_hex (c ∷ d ∷ cs) =
    let skipped = from_hex (d ∷ cs) in
    let read = do hi ← digit_value c; lo ← digit_value d; bs ← from_hex cs; ok ((hi * 16 + lo) ∷ bs)
    in if is_ascii_blank c then skipped else read

unfoldable pub all_bytes : Bytes → Bool
all_bytes [] = true
all_bytes (b ∷ bs) = ltb b 256 && all_bytes bs

digit_value-hex_digit :
    (n : ℕ) → n < 16 → (digit_value (hex_digit n) ≡ ok n) × (is_ascii_blank (hex_digit n) ≡ false)
digit_value-hex_digit n h = (ground arith, ground arith)

-- `bytes.fromhex` reads the text of `bytes.hex` back.
pub from_hex-hex : (bs : Bytes) → all_bytes bs ≡ true → from_hex (hex bs) ≡ ok bs
unfolding from_hex hex all_bytes
from_hex-hex [] h = refl
from_hex-hex (b ∷ bs) h =
    let small : b < 256 = ground arith in
    let rest : all_bytes bs ≡ true = ground arith in
    let (hi, solid) = digit_value-hex_digit (b / 16) (omega arith) in
    let (lo, _) = digit_value-hex_digit (b % 16) (omega arith) in
    rw (solid, hi, lo, from_hex-hex bs rest) (ap (λ n. ok (n ∷ bs)) (omega arith))
