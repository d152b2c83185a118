-- ===== src/Ec/Packet/Flags.antt =====
-- `Flags` and `ECFlag` of jamule/ec: the transmission flags, as one number and back.
use amarr.Prelude.{
  ℕ, ◌<◌, ◌^◌, ◌≡◌, refl, Bool, true, false, bit_and, bit_or, ◌==◌, not, if◌then◌else◌, arith,
}
use amarr.Py.Result.{Result, ok, err, invalid_ec}

abbrev pub ec_flag_zlib : ℕ
ec_flag_zlib = 0x00000001

abbrev pub ec_flag_utf8_numbers : ℕ
ec_flag_utf8_numbers = 0x00000002

abbrev pub ec_flag_has_id : ℕ
ec_flag_has_id = 0x00000004

abbrev pub ec_flag_accepts : ℕ
ec_flag_accepts = 0x00000010

abbrev pub ec_flag_unknown_mask : ℕ
ec_flag_unknown_mask = 0xFF7F7F08

pub record TransmissionFlags : Type 0 where
  pub zlib_compressed : Bool
  pub utf8 : Bool
  pub has_id : Bool
  pub accepts : Bool

-- `Flags()`
abbrev pub default_flags : TransmissionFlags
default_flags = record { zlib_compressed = false; utf8 = true; has_id = false; accepts = false }

-- `if test: flags |= bit`
abbrev or_if : Bool → ℕ → ℕ → ℕ
or_if test bit flags = if test then bit_or flags bit else flags

bits_of : Bool → Bool → Bool → Bool → ℕ
bits_of z u h a =
    or_if a ec_flag_accepts
      (or_if h ec_flag_has_id (or_if u ec_flag_utf8_numbers (or_if z ec_flag_zlib 0x20)))

-- `Flags.to_uint`: bit 5 is always set.
unfoldable pub to_uint : TransmissionFlags → ℕ
unfolding bits_of
to_uint f = bits_of f.zlib_compressed f.utf8 f.has_id f.accepts

abbrev test_bit : ℕ → ℕ → Bool
test_bit flags bit = not (bit_and flags bit == 0)

-- `Flags.from_uint`
unfoldable pub from_uint : ℕ → TransmissionFlags
from_uint flags = record {
  zlib_compressed = test_bit flags ec_flag_zlib;
  utf8 = test_bit flags ec_flag_utf8_numbers;
  has_id = test_bit flags ec_flag_has_id;
  accepts = test_bit flags ec_flag_accepts;
}

-- The check of `PacketParser._parse_flags` on the number that it has read.
unfoldable pub known_flags : ℕ → Result TransmissionFlags
known_flags flags =
    if bit_and flags ec_flag_unknown_mask == 0 then ok (from_uint flags) else err invalid_ec

abbrev ReadsBack : Bool → Bool → Bool → Bool → Type 0
ReadsBack z u h a =
    (known_flags (bits_of z u h a)
      ≡ ok (record { zlib_compressed = z; utf8 = u; has_id = h; accepts = a }))
    × (bits_of z u h a < 2 ^ 32)

flags_table : (z u h a : Bool) → ReadsBack z u h a
unfolding bits_of known_flags from_uint
flags_table true true true true = (refl, omega arith)
flags_table true true true false = (refl, omega arith)
flags_table true true false true = (refl, omega arith)
flags_table true true false false = (refl, omega arith)
flags_table true false true true = (refl, omega arith)
flags_table true false true false = (refl, omega arith)
flags_table true false false true = (refl, omega arith)
flags_table true false false false = (refl, omega arith)
flags_table false true true true = (refl, omega arith)
flags_table false true true false = (refl, omega arith)
flags_table false true false true = (refl, omega arith)
flags_table false true false false = (refl, omega arith)
flags_table false false true true = (refl, omega arith)
flags_table false false true false = (refl, omega arith)
flags_table false false false true = (refl, omega arith)
flags_table false false false false = (refl, omega arith)

-- The number of any flags fits in 32 bits, passes the check for unknown bits and gives the flags
-- back.
pub known_flags-to_uint :
    (f : TransmissionFlags) → (known_flags (to_uint f) ≡ ok f) × (to_uint f < 2 ^ 32)
unfolding to_uint
known_flags-to_uint f = flags_table f.zlib_compressed f.utf8 f.has_id f.accepts
