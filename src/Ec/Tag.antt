-- ===== src/Ec/Tag.antt =====
-- jamule/ec/tag.py: the tags of the EC protocol.
pub mod Values
pub mod Find
pub mod First
pub mod Codec
pub mod Wire
pub mod RoundTrip
pub mod Errors
use amarr.Prelude.{ℕ, suc, Bool, true, false}
use amarr.Prelude.Int.{ℤ}
use amarr.Py.Seq.{Bytes, Text}
use amarr.Ec.TagType
use amarr.Ec.TagType.{TagType}

pub record Ipv4 : Type 0 where
  pub address : Text
  pub port : ℕ

-- The class of a tag with its value. A float is its `repr`; numeric values are not negative.
pub data Value : Type 0 where
  custom : Bytes → Value
  ubyte : ℕ → Value
  ushort : ℕ → Value
  uint : ℕ → Value
  ulong : ℕ → Value
  uint128 : ℤ → Value
  string : Text → Value
  double : Text → Value
  ipv4 : Ipv4 → Value
  hash16 : Bytes → Value

-- A tag has its name (the value of the `ECTagName`), its `name_value`, its value and its subtags.
mutual
  pub data Tag : Type 0 where
    tag : ℕ → ℕ → Value → Tags → Tag

  pub data Tags : Type 0 where
    nil : Tags
    cons : Tag → Tags → Tags

unfoldable pub name : Tag → ℕ
name (tag n nv v subs) = n

unfoldable pub subtags : Tag → Tags
subtags (tag n nv v subs) = subs

unfoldable pub value : Tag → Value
value (tag n nv v subs) = v

abbrev pub has_any : Tags → Bool
has_any nil = false
has_any (cons t ts) = true

abbrev pub count : Tags → ℕ
count nil = 0
count (cons t ts) = suc (count ts)

-- The class attribute `type`.
abbrev pub type_of : Value → TagType
type_of (custom b) = TagType.custom
type_of (ubyte n) = TagType.uint8
type_of (ushort n) = TagType.uint16
type_of (uint n) = TagType.uint32
type_of (ulong n) = TagType.uint64
type_of (uint128 z) = TagType.uint128
type_of (string t) = TagType.string
type_of (double t) = TagType.double
type_of (ipv4 ip) = TagType.ipv4
type_of (hash16 b) = TagType.hash16
