-- ===== src/Ec/Encoding.antt =====
-- jamule/ec/encoding.py: the integers of the EC protocol, binary or as UTF-8 sequences.
pub mod Length
pub mod RoundTrip
use amarr.Prelude.{
  ℕ, zero, suc, ◌+◌, ◌%◌, ◌^◌, Bool, true, false, List, [], ◌∷◌, bit_and, ltb, ◌==◌, ◌||◌,
  if◌then◌else◌, take,
}
use amarr.Prelude.Int.{ℤ, pos, ◌+ℤ◌}
use amarr.Py.Result.{Result, ok, err, value_error, type_error, ◌>>=◌}
use amarr.Py.Seq.{Bytes, Text, get_index, slice}
use amarr.Py.Struct.{be_bytes, unpack_be}
use amarr.Py.Utf8.{encode_char, decode}

abbrev pub len_ubyte : ℕ
len_ubyte = 1

abbrev pub len_ushort : ℕ
len_ushort = 2

abbrev pub len_uint : ℕ
len_uint = 4

abbrev pub len_ulong : ℕ
len_ulong = 8

-- `value & 0xFFFF` is the remainder by 2 ^ 16, and so on.
unfoldable pub ushort_to_bytes : ℕ → Bytes
ushort_to_bytes value = be_bytes 2 (value % 2 ^ 16)

unfoldable pub uint_to_bytes : ℕ → Bytes
uint_to_bytes value = be_bytes 4 (value % 2 ^ 32)

unfoldable pub ulong_to_bytes : ℕ → Bytes
ulong_to_bytes value = be_bytes 8 (value % 2 ^ 64)

unfoldable pub bytes_to_uint64 : Bytes → Result ℕ
bytes_to_uint64 bs = unpack_be 8 (take 8 bs)

unfoldable pub bytes_to_uint32 : Bytes → Result ℕ
bytes_to_uint32 bs = unpack_be 4 (take 4 bs)

unfoldable pub bytes_to_uint16 : Bytes → Result ℕ
bytes_to_uint16 bs = unpack_be 2 (take 2 bs)

unfoldable pub number_to_utf8 : ℕ → Result Bytes
number_to_utf8 value = encode_char value

-- The loop of `utf8_sequence_length`. The mask is 2 ^ (bit - 1), and 0 when no bit is left.
mask_rounds : ℕ → ℕ → ℕ → ℕ
mask_rounds zero first_byte length = length
mask_rounds (suc bit) first_byte length = elim (bit_and first_byte (2 ^ bit) == 0) [
  | true ↦ length
  | false ↦ mask_rounds bit first_byte (length + 1)
]

unfoldable pub utf8_sequence_length : ℕ → Result ℕ
unfolding mask_rounds
utf8_sequence_length first_byte =
    if bit_and first_byte 0x80 == 0
    then ok 1
    else let length = mask_rounds 7 first_byte 1 in
      if ltb length 2 || ltb 4 length then err value_error else ok length

-- `ord(text)`: a text of one character.
abbrev ord : Text → Result ℕ
ord (c ∷ []) = ok c
ord _ = err type_error

unfoldable pub read_utf8_number : Bytes → ℤ → Result ℕ
read_utf8_number buf offset = do
  first_byte ← get_index buf offset
  length ← utf8_sequence_length first_byte
  text ← decode (slice buf offset (offset +ℤ pos length))
  ord text

unfoldable pub number_length : ℕ → Bool → ℕ → Result ℕ
number_length first_byte utf size = if utf then utf8_sequence_length first_byte else ok size

unfoldable pub read_uint32 : Bytes → Bool → ℤ → Result ℕ
read_uint32 buf utf index =
    if utf then read_utf8_number buf index else bytes_to_uint32 (slice buf index (index +ℤ pos 4))

unfoldable pub read_uint16 : Bytes → Bool → ℤ → Result ℕ
read_uint16 buf utf index =
    if utf then read_utf8_number buf index else bytes_to_uint16 (slice buf index (index +ℤ pos 2))

unfoldable pub ushort_to_bytes_utf : ℕ → Bool → Result Bytes
ushort_to_bytes_utf value utf = if utf then number_to_utf8 value else ok (ushort_to_bytes value)

unfoldable pub uint_to_bytes_utf : ℕ → Bool → Result Bytes
uint_to_bytes_utf value utf = if utf then number_to_utf8 value else ok (uint_to_bytes value)
