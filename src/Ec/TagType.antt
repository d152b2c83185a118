-- ===== src/Ec/TagType.antt =====
-- `ECTagType` of jamule/ec/codes.py.
use amarr.Prelude.{ℕ, ◌≡◌, refl, ◌==◌, if◌then◌else◌}

pub data TagType : Type 0 where
  unknown custom uint8 uint16 uint32 uint64 string double ipv4 hash16 uint128 : TagType

-- The member's value, one byte on the wire.
unfoldable pub value : TagType → ℕ
value unknown = 0
value custom = 1
value uint8 = 2
value uint16 = 3
value uint32 = 4
value uint64 = 5
value string = 6
value double = 7
value ipv4 = 8
value hash16 = 9
value uint128 = 10

-- `ECTagType.from_value`: any other value is `EC_TAGTYPE_UNKNOWN`.
unfoldable pub from_value : ℕ → TagType
from_value v =
    if v == 1
    then custom
    else if v == 2
    then uint8
    else if v == 3
    then uint16
    else if v == 4
    then uint32
    else if v == 5
    then uint64
    else if v == 6
    then string
    else if v == 7
    then double
    else if v == 8
    then ipv4
    else if v == 9
    then hash16
    else if v == 10
    then uint128
    else unknown

pub from_value-value : (t : TagType) → from_value (value t) ≡ t
unfolding from_value value
from_value-value unknown = refl
from_value-value _ = refl
