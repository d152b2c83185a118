-- ===== src/Ec/Tag/Find.antt =====
-- The typed accessors and the numeric interface of jamule/ec/tag.py.
use amarr.Prelude.{ℕ, ◌≡◌, Bool, true, false, Option, none, some, ◌==◌, if◌then◌else◌, arith}
use amarr.Py.Result.{Result, ok, err, type_error, runtime_error, ◌>>=◌}
use amarr.Py.Seq.{Bytes, Text}
use amarr.Ec.Tag.{
  Tag, Tags, Value, Ipv4, nil, cons, name, value, custom, ubyte, ushort, uint, ulong, string, ipv4,
  hash16,
}

-- `isinstance(tag, UByteTag)` and so on, by the class of the value.
abbrev pub is_ubyte : Value → Bool
is_ubyte (ubyte n) = true
is_ubyte _ = false

abbrev pub is_ushort : Value → Bool
is_ushort (ushort n) = true
is_ushort _ = false

abbrev pub is_uint : Value → Bool
is_uint (uint n) = true
is_uint _ = false

abbrev pub is_ulong : Value → Bool
is_ulong (ulong n) = true
is_ulong _ = false

abbrev pub is_string : Value → Bool
is_string (string t) = true
is_string _ = false

abbrev pub is_hash16 : Value → Bool
is_hash16 (hash16 b) = true
is_hash16 _ = false

abbrev pub is_ipv4 : Value → Bool
is_ipv4 (ipv4 ip) = true
is_ipv4 _ = false

abbrev pub is_custom : Value → Bool
is_custom (custom b) = true
is_custom _ = false

-- `_NumericTag`: the integer tags up to 64 bits.
abbrev pub is_numeric : Value → Bool
is_numeric (ubyte n) = true
is_numeric (ushort n) = true
is_numeric (uint n) = true
is_numeric (ulong n) = true
is_numeric _ = false

-- `tag if isinstance(tag, cls) else None`
abbrev pub instance_of : (Value → Bool) → Tag → Option Tag
instance_of cls t = if cls (value t) then some t else none

unfoldable pub first_of_type : Tags → ℕ → (Value → Bool) → Option Tag
first_of_type nil n cls = none
first_of_type (cons t ts) n cls =
    let later = first_of_type ts n cls in if name t == n then instance_of cls t else later

unfoldable pub find_byte : Tags → ℕ → Option Tag
find_byte tags n = first_of_type tags n is_ubyte

unfoldable pub find_short : Tags → ℕ → Option Tag
find_short tags n = first_of_type tags n is_ushort

unfoldable pub find_int : Tags → ℕ → Option Tag
find_int tags n = first_of_type tags n is_uint

unfoldable pub find_long : Tags → ℕ → Option Tag
find_long tags n = first_of_type tags n is_ulong

unfoldable pub find_string : Tags → ℕ → Option Tag
find_string tags n = first_of_type tags n is_string

unfoldable pub find_hash16 : Tags → ℕ → Option Tag
find_hash16 tags n = first_of_type tags n is_hash16

unfoldable pub find_ipv4 : Tags → ℕ → Option Tag
find_ipv4 tags n = first_of_type tags n is_ipv4

unfoldable pub find_custom : Tags → ℕ → Option Tag
find_custom tags n = first_of_type tags n is_custom

unfoldable pub find_numeric : Tags → ℕ → Option Tag
find_numeric tags n = first_of_type tags n is_numeric

abbrev as_class : (Value → Bool) → Option Tag → Option Tag
as_class cls none = none
as_class cls (some t) = instance_of cls t

unfoldable pub as_ipv4 : Option Tag → Option Tag
as_ipv4 t = as_class is_ipv4 t

unfoldable pub as_numeric : Option Tag → Option Tag
as_numeric t = as_class is_numeric t

unfoldable pub as_byte : Option Tag → Option Tag
as_byte t = as_class is_ubyte t

-- `get_short`, `get_int`, `get_long`: a class refuses the widths below its own.
unfoldable pub get_short : Value → Result ℕ
get_short (ubyte n) = ok n
get_short (ushort n) = ok n
get_short (uint n) = err runtime_error
get_short (ulong n) = err runtime_error
get_short _ = err type_error

unfoldable pub get_int : Value → Result ℕ
get_int (ubyte n) = ok n
get_int (ushort n) = ok n
get_int (uint n) = ok n
get_int (ulong n) = err runtime_error
get_int _ = err type_error

unfoldable pub get_long : Value → Result ℕ
get_long (ubyte n) = ok n
get_long (ushort n) = ok n
get_long (uint n) = ok n
get_long (ulong n) = ok n
get_long _ = err type_error

abbrev pub append_tags : Tags → Tags → Tags
append_tags nil ts = ts
append_tags (cons t ts) us = cons t (append_tags ts us)

unfoldable pub has_name : ℕ → Tags → Bool
has_name n nil = false
has_name n (cons t ts) = elim (name t == n) [ true ↦ true | false ↦ has_name n ts ]

-- An accessor looks at the first tag of the name alone: it is returned if it has the class, and
-- no later tag of that name is, whatever its class.
first_of_type-append :
    (before after : Tags) (t : Tag) (n : ℕ) (cls : Value → Bool)
    → has_name n before ≡ false
    → name t ≡ n
    → first_of_type (append_tags before (cons t after)) n cls ≡ instance_of cls t
unfolding first_of_type has_name
first_of_type-append nil after t n cls h e = ground arith
first_of_type-append (cons u us) after t n cls h e =
    ground (arith, first_of_type-append us after t n cls)

-- `tag.get_value()` of a tag that an accessor has found; the class is known, so the value is there.
abbrev text_of : Value → Option Text
text_of (string t) = some t
text_of _ = none

abbrev bytes_of : Value → Option Bytes
bytes_of (hash16 b) = some b
bytes_of _ = none

abbrev number_of : Value → Option ℕ
number_of (ubyte n) = some n
number_of (ushort n) = some n
number_of (uint n) = some n
number_of (ulong n) = some n
number_of _ = none

abbrev address_of : Value → Option Ipv4
address_of (ipv4 ip) = some ip
address_of _ = none

abbrev get_value {ℓ} : {A : Type ℓ} → (Value → Option A) → Option Tag → Option A
get_value read none = none
get_value read (some t) = read (value t)

-- `found.get_value() if found is not None else None`, for each accessor.
unfoldable pub string_value : Tags → ℕ → Option Text
unfolding find_string first_of_type
string_value tags n = get_value text_of (find_string tags n)

unfoldable pub hash_value : Tags → ℕ → Option Bytes
unfolding find_hash16 first_of_type
hash_value tags n = get_value bytes_of (find_hash16 tags n)

unfoldable pub byte_value : Tags → ℕ → Option ℕ
unfolding find_byte first_of_type
byte_value tags n = get_value number_of (find_byte tags n)

unfoldable pub short_value : Tags → ℕ → Option ℕ
unfolding find_short first_of_type
short_value tags n = get_value number_of (find_short tags n)

unfoldable pub int_value : Tags → ℕ → Option ℕ
unfolding find_int first_of_type
int_value tags n = get_value number_of (find_int tags n)

unfoldable pub long_value : Tags → ℕ → Option ℕ
unfolding find_long first_of_type
long_value tags n = get_value number_of (find_long tags n)

abbrev pub ipv4_value : Option Tag → Option Ipv4
ipv4_value t = get_value address_of t

-- `found.get_x() if found is not None else None`, which raises where the class refuses the width.
abbrev pub optional_number : (Value → Result ℕ) → Option Tag → Result (Option ℕ)
optional_number get none = ok none
optional_number get (some t) = do n ← get (value t); ok (some n)

-- `found.get_x() if found is not None else default`
abbrev pub number_or : ℕ → (Value → Result ℕ) → Option Tag → Result ℕ
number_or default get none = ok default
number_or default get (some t) = get (value t)
