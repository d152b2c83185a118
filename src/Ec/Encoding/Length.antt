-- ===== src/Ec/Encoding/Length.antt =====
-- `utf8_sequence_length` against the table of UTF-8 leading bytes.
use amarr.Prelude.{
  ℕ, ◌+◌, ◌/◌, ◌%◌, ◌<◌, ◌≡◌, refl, ap, ◌∙◌, Bool, true, false, [], ◌∷◌, arith, ltb, ◌==◌, ==_iff,
  if◌then◌else◌, all_below, all_below_sound, length,
}
use amarr.Py.Result.{Result, ok, err, value_error}
use amarr.Py.Seq.{Bytes}
use amarr.Py.Utf8.{char_bytes, is_scalar}
use amarr.Ec.Encoding.{utf8_sequence_length}

-- The lengths that the first byte announces: RFC 3629, with the five-byte forms refused.
abbrev pub leading_byte_length : ℕ → Result ℕ
leading_byte_length b =
    if ltb b 0x80
    then ok 1
    else if ltb b 0xC0
    then err value_error
    else if ltb b 0xE0
    then ok 2
    else if ltb b 0xF0
    then ok 3
    else if ltb b 0xF8
    then ok 4
    else err value_error

abbrev agrees : Result ℕ → Result ℕ → Bool
agrees (ok a) (ok b) = a == b
agrees (err value_error) (err value_error) = true
agrees _ _ = false

agrees_sound : (r s : Result ℕ) → agrees r s ≡ true → r ≡ s
agrees_sound (ok a) (ok b) h = ap ok ((==_iff a b).0 h)
agrees_sound (err value_error) (err value_error) h = refl
agrees_sound _ _ h = ground arith

length_table : all_below 256 (λ b. agrees (utf8_sequence_length b) (leading_byte_length b)) ≡ true
unfolding all_below utf8_sequence_length
length_table = refl

-- For every byte, `utf8_sequence_length` is the length that the byte announces as the first of a
-- UTF-8 sequence, and `ValueError` on continuation bytes and from 0xF8 on.
pub utf8_sequence_length_lem : (b : ℕ) → b < 256 → utf8_sequence_length b ≡ leading_byte_length b
utf8_sequence_length_lem b h = agrees_sound (utf8_sequence_length b) (leading_byte_length b) (
    all_below_sound 256 (λ b. agrees (utf8_sequence_length b) (leading_byte_length b)) b
      length_table h)

-- The first byte of a character's sequence, and the others.
abbrev char_first : ℕ → ℕ
char_first c =
    if ltb c 0x80
    then c
    else if ltb c 0x800
    then 0xC0 + c / 64
    else if ltb c 0x10000
    then 0xE0 + c / 4096
    else 0xF0 + c / 262144

char_rest : ℕ → Bytes
char_rest c =
    if ltb c 0x80
    then []
    else if ltb c 0x800
    then (0x80 + c % 64) ∷ []
    else if ltb c 0x10000
    then (0x80 + c / 64 % 64) ∷ (0x80 + c % 64) ∷ []
    else (0x80 + c / 4096 % 64) ∷ (0x80 + c / 64 % 64) ∷ (0x80 + c % 64) ∷ []

char_bytes-eq : (c : ℕ) → char_bytes c ≡ char_first c ∷ char_rest c
unfolding char_bytes char_rest
char_bytes-eq c = ground arith

char_first-lt : (c : ℕ) → is_scalar c ≡ true → char_first c < 256
char_first-lt c h = ground arith

leading_byte_length-char_first :
    (c : ℕ) → is_scalar c ≡ true → leading_byte_length (char_first c) ≡ ok (length (char_bytes c))
unfolding char_bytes
leading_byte_length-char_first c h = ground arith

-- A character's sequence starts with a byte that announces its length.
pub char_bytes-shape :
    (c : ℕ)
    → is_scalar c ≡ true
    → (b : ℕ) × (s : Bytes) × (char_bytes c ≡ b ∷ s)
      × (utf8_sequence_length b ≡ ok (length (char_bytes c)))
char_bytes-shape c h = (
  char_first c,
  char_rest c,
  char_bytes-eq c,
  utf8_sequence_length_lem (char_first c) (char_first-lt c h) ∙ leading_byte_length-char_first c h,
)
