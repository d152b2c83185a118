-- ===== src/Ec/Tag/Values.antt =====
-- `encode_value` and `parse_value` of the tag classes of jamule/ec/tag.py.
pub mod RoundTrip
pub mod Signed
use amarr.Prelude.{
  ℕ, zero, suc, ◌+◌, ◌-◌, ◌*◌, ◌/◌, ◌%◌, ◌^◌, Bool, true, false, Option, none, some, List, [], ◌∷◌,
  ◌++◌, leb, ◌==◌, if◌then◌else◌, length,
}
use amarr.Prelude.Int.{ℤ, pos, negsuc}
use amarr.Py.Result.{Result, ok, err, value_error, struct_error, ◌>>=◌}
use amarr.Py.Seq.{Bytes, Text, get_index}
use amarr.Py.Struct.{be_bytes, of_be}
use amarr.Py.Utf8.{encode, decode}
use amarr.Py.Decimal.{decimal, int, split, rstrip}
use amarr.Ec.TagType
use amarr.Ec.TagType.{TagType}
use amarr.Ec.Encoding.{
  ushort_to_bytes, uint_to_bytes, ulong_to_bytes, bytes_to_uint64, read_uint16, read_uint32,
}
use amarr.Ec.Tag.{
  Ipv4, Value, custom, ubyte, ushort, uint, ulong, uint128, string, double, ipv4, hash16,
}

-- `n.bit_length()`; `n` rounds of halving are enough.
bits : ℕ → ℕ → ℕ
bits zero n = 0
bits (suc f) n = let more = bits f (n / 2) in if n == 0 then 0 else suc more

unfoldable pub bit_length : ℕ → ℕ
unfolding bits
bit_length n = bits n n

-- `value.to_bytes(length, "big", signed=True)`: two's complement.
unfoldable pub to_bytes_signed : ℕ → ℤ → Bytes
to_bytes_signed length (pos n) = be_bytes length n
to_bytes_signed length (negsuc n) = be_bytes length (256 ^ length - suc n)

-- `int.from_bytes(data, "big", signed=True)`: the top bit is set in the upper half of the range.
unfoldable pub from_bytes_signed : Bytes → ℤ
from_bytes_signed bs =
    let u = of_be 0 bs in
    let range = 256 ^ length bs in if leb range (2 * u) then negsuc (range - u - 1) else pos u

-- `UInt128Tag.encode_value`; `bit_length` ignores the sign.
unfoldable pub encode_uint128 : ℤ → Bytes
encode_uint128 (pos zero) = 0 ∷ []
encode_uint128 (pos (suc n)) = to_bytes_signed ((bit_length (suc n) + 8) / 8) (pos (suc n))
encode_uint128 (negsuc n) = to_bytes_signed ((bit_length (suc n) + 8) / 8) (negsuc n)

-- `z & 0xFF`, where Python's negative integers have infinitely many leading ones.
abbrev low_byte : ℤ → ℕ
low_byte (pos n) = n % 256
low_byte (negsuc n) = 255 - n % 256

encode_octets : List Text → Result Bytes
encode_octets [] = ok []
encode_octets (part ∷ parts) = do z ← int part; rest ← encode_octets parts; ok (low_byte z ∷ rest)

unfoldable pub encode_value : Value → Result Bytes
unfolding encode_octets
encode_value (custom bs) = ok bs
encode_value (ubyte n) = ok ((n % 256) ∷ [])
encode_value (ushort n) = ok (ushort_to_bytes n)
encode_value (uint n) = ok (uint_to_bytes n)
encode_value (ulong n) = ok (ulong_to_bytes n)
encode_value (uint128 z) = ok (encode_uint128 z)
encode_value (string t) = do bs ← encode t; ok (bs ++ 0 ∷ [])
encode_value (double t) = do bs ← encode t; ok (bs ++ 0 ∷ [])
encode_value (ipv4 ip) = do
  octets ← encode_octets (split b'.' ip.address)
  ok (octets ++ ushort_to_bytes ip.port)
encode_value (hash16 bs) = ok bs

null_terminated : Bytes → Bool
null_terminated [] = false
null_terminated (b ∷ []) = b == 0
null_terminated (b ∷ c ∷ bs) = null_terminated (c ∷ bs)

-- `bytes(data).decode("utf-8").rstrip("\x00")` behind the check that both text classes make.
parse_text : Bytes → Result Text
parse_text bs = if null_terminated bs then (do t ← decode bs; ok (rstrip 0 t)) else err value_error

-- `f"{data[0]}.{data[1]}.{data[2]}.{data[3]}"`
abbrev pub dotted : ℕ → ℕ → ℕ → ℕ → Text
dotted a b c d = decimal a ++ b'.' ∷ (decimal b ++ b'.' ∷ (decimal c ++ b'.' ∷ decimal d))

parse_ipv4 : Bytes → Result Value
parse_ipv4 bs =
    if length bs == 6
    then (do
      a ← get_index bs (pos 0)
      b ← get_index bs (pos 1)
      c ← get_index bs (pos 2)
      d ← get_index bs (pos 3)
      port ← read_uint16 bs false (pos 4)
      ok (ipv4 (record { address = dotted a b c d; port = port })))
    else err value_error

-- `float(text)` is a parameter. It gives the `repr` of the value, and `none` is `ValueError`.
module _ (parse_float : Text → Option Text) where
  abbrev float_value : Option Text → Result Value
  float_value none = err value_error
  float_value (some t) = ok (double t)

  -- `_TAG_BY_TYPE[tag_type]` and the `parse_value` of that class.
  unfoldable pub parse_value : TagType → Bytes → Result Value
  unfolding parse_text parse_ipv4 null_terminated
  parse_value TagType.unknown bs = err value_error
  parse_value TagType.custom bs = ok (custom bs)
  parse_value TagType.uint8 [] = ok (ubyte 0)
  parse_value TagType.uint8 (b ∷ []) = ok (ubyte b)
  parse_value TagType.uint8 (b ∷ c ∷ bs) = err value_error
  parse_value TagType.uint16 bs =
      if length bs == 0
      then ok (ushort 0)
      else if length bs == 2
      then (do n ← read_uint16 bs false (pos 0); ok (ushort n))
      else err value_error
  parse_value TagType.uint32 bs =
      if length bs == 0
      then ok (uint 0)
      else if length bs == 4
      then (do n ← read_uint32 bs false (pos 0); ok (uint n))
      else err value_error
  parse_value TagType.uint64 bs =
      if length bs == 0
      then ok (ulong 0)
      else if length bs == 8
      then (do n ← bytes_to_uint64 bs; ok (ulong n))
      else err value_error
  parse_value TagType.uint128 bs =
      if length bs == 0 then ok (uint128 (pos 0)) else ok (uint128 (from_bytes_signed bs))
  parse_value TagType.string bs = do t ← parse_text bs; ok (string t)
  parse_value TagType.double bs = do t ← parse_text bs; float_value (parse_float t)
  parse_value TagType.ipv4 bs = parse_ipv4 bs
  parse_value TagType.hash16 bs = if length bs == 16 then ok (hash16 bs) else err value_error
