-- ===== src/Ed2k/Tags.antt =====
-- ed2k/core.py: the tags of eD2k and Kad, and the text in them.
use amarr.Prelude.{
  ℕ, ◌+◌, ◌-◌, ◌/◌, ◌%◌, Bool, true, false, not, ◌&&◌, ◌||◌, Option, none, some, List, [], ◌∷◌, ltb,
  leb, ◌==◌, if◌then◌else◌, length, get_elem?,
}
use amarr.Prelude.Int.{pos}
use amarr.Py.Result.{Result, ok, err, value_error, ◌>>=◌}
use amarr.Py.Seq.{Bytes, Text, get_index, slice}
use amarr.Py.Struct.{unpack_le_from}
use amarr.Py.Utf8
use amarr.Py.Url.{decode_replace}
use amarr.Py.Equality.{eq_text}

-- The types of tags
abbrev pub tt_hash : ℕ
tt_hash = 0x01

abbrev pub tt_string : ℕ
tt_string = 0x02

abbrev pub tt_uint32 : ℕ
tt_uint32 = 0x03

abbrev pub tt_float : ℕ
tt_float = 0x04

abbrev pub tt_bool : ℕ
tt_bool = 0x05

abbrev pub tt_boolarray : ℕ
tt_boolarray = 0x06

abbrev pub tt_blob : ℕ
tt_blob = 0x07

abbrev pub tt_uint16 : ℕ
tt_uint16 = 0x08

abbrev pub tt_uint8 : ℕ
tt_uint8 = 0x09

abbrev pub tt_bsob : ℕ
tt_bsob = 0x0A

abbrev pub tt_uint64 : ℕ
tt_uint64 = 0x0B

abbrev pub tt_str1 : ℕ
tt_str1 = 0x11

abbrev pub tt_str16 : ℕ
tt_str16 = 0x20

-- A character of CP1252 from 0x80 on; five bytes stand for none.
abbrev pub cp1252_table : List ℕ
cp1252_table =
    0x20AC ∷ 0 ∷ 0x201A ∷ 0x0192 ∷ 0x201E ∷ 0x2026 ∷ 0x2020 ∷ 0x2021 ∷ 0x02C6 ∷ 0x2030 ∷ 0x0160
    ∷ 0x2039 ∷ 0x0152 ∷ 0 ∷ 0x017D ∷ 0 ∷ 0 ∷ 0x2018 ∷ 0x2019 ∷ 0x201C ∷ 0x201D ∷ 0x2022 ∷ 0x2013
    ∷ 0x2014 ∷ 0x02DC ∷ 0x2122 ∷ 0x0161 ∷ 0x203A ∷ 0x0153 ∷ 0 ∷ 0x017E ∷ 0x0178 ∷ []

abbrev in_table : ℕ → Option ℕ → Option ℕ
in_table b none = some b
in_table b (some c) = if c == 0 then none else some c

abbrev cp1252_char : ℕ → Option ℕ
cp1252_char b = if ltb b 0x80 then some b else in_table b (get_elem? cp1252_table (b - 0x80))

abbrev add_char : Option ℕ → Option Text → Option Text
add_char (some c) (some t) = some (c ∷ t)
add_char _ _ = none

unfoldable pub decode_cp1252 : Bytes → Option Text
decode_cp1252 [] = some []
decode_cp1252 (b ∷ bs) = add_char (cp1252_char b) (decode_cp1252 bs)

-- The text has a character outside ASCII that is not the mark of a broken byte.
unfoldable pub has_accents : Text → Bool
has_accents [] = false
has_accents (c ∷ cs) = (ltb 127 c && not (c == 0xFFFD)) || has_accents cs

abbrev or_latin_1 : Bytes → Option Text → Text
or_latin_1 raw none = raw
or_latin_1 raw (some t) = t

abbrev or_legacy : Bytes → Result Text → Text
or_legacy raw (ok t) = t
or_legacy raw (err e) =
    let u = decode_replace (length raw) raw in
    if has_accents u then u else or_latin_1 raw (decode_cp1252 raw)

-- `decode_str`
unfoldable pub decode_str : Bytes → Text
decode_str raw = or_legacy raw (Utf8.decode raw)

-- A name is a number or a text. A float is kept as its four bytes, and `None` is `nothing`.
pub data TagName : Type 0 where
  special : ℕ → TagName
  long : Text → TagName

pub data TagValue : Type 0 where
  text : Text → TagValue
  number : ℕ → TagValue
  float : Bytes → TagValue
  bytes : Bytes → TagValue
  boolean : Bool → TagValue
  nothing : TagValue

abbrev piece : Bytes → ℕ → ℕ → Bytes
piece buf off size = slice buf (pos off) (pos (off + size))

-- The name of a tag, and where the value starts
abbrev long_name : Bytes → ℕ → ℕ → Bool → Result (TagName × ℕ)
long_name buf off size true = do b ← get_index buf (pos off); ok (special b, off + 1)
long_name buf off size false = ok (long (decode_str (piece buf off size)), off + size)

abbrev name_at : Bytes → ℕ → Bool → Result (TagName × ℕ)
name_at buf off true = do b ← get_index buf (pos off); ok (special b, off + 1)
name_at buf off false = do nlen ← unpack_le_from 2 buf off; long_name buf (off + 2) nlen (nlen == 1)

abbrev sized_text : Bytes → ℕ → ℕ → Result (TagValue × ℕ)
sized_text buf off size = ok (text (decode_str (piece buf off size)), off + size)

abbrev sized_bytes : Bytes → ℕ → ℕ → Result (TagValue × ℕ)
sized_bytes buf off size = ok (bytes (piece buf off size), off + size)

abbrev number_at : Bytes → ℕ → ℕ → Result (TagValue × ℕ)
number_at buf off size = do n ← unpack_le_from size buf off; ok (number n, off + size)

abbrev float_at : Bytes → ℕ → Result (TagValue × ℕ)
float_at buf off = do n ← unpack_le_from 4 buf off; ok (float (piece buf off 4), off + 4)

unfoldable pub value_at : Bytes → ℕ → ℕ → Result (TagValue × ℕ)
value_at buf off ttype =
    if leb tt_str1 ttype && leb ttype tt_str16
    then sized_text buf off (ttype - tt_str1 + 1)
    else if ttype == tt_string
    then (do slen ← unpack_le_from 2 buf off; sized_text buf (off + 2) slen)
    else if ttype == tt_uint32
    then number_at buf off 4
    else if ttype == tt_uint16
    then number_at buf off 2
    else if ttype == tt_uint8
    then (do b ← get_index buf (pos off); ok (number b, off + 1))
    else if ttype == tt_uint64
    then number_at buf off 8
    else if ttype == tt_float
    then float_at buf off
    else if ttype == tt_hash
    then sized_bytes buf off 16
    else if ttype == tt_bool
    then (do b ← get_index buf (pos off); ok (boolean (not (b == 0)), off + 1))
    else if ttype == tt_blob
    then (do blen ← unpack_le_from 4 buf off; sized_bytes buf (off + 4) blen)
    else if ttype == tt_bsob
    then (do blen ← get_index buf (pos off); sized_bytes buf (off + 1) blen)
    else if ttype == tt_boolarray
    then (do nbits ← unpack_le_from 2 buf off; ok (nothing, off + (2 + (nbits + 7) / 8)))
    else err value_error

-- `read_tag`: the name, the value and where the next tag starts
unfoldable pub read_tag : Bytes → ℕ → Result (TagName × TagValue × ℕ)
read_tag buf off = do
  ttype ← get_index buf (pos off)
  (name, start) ← name_at buf (off + 1) (leb 0x80 ttype)
  (value, end) ← value_at buf start (ttype % 0x80)
  ok (name, value, end)

abbrev pub same_name : TagName → TagName → Bool
same_name (special m) (special n) = m == n
same_name (long s) (long t) = eq_text s t
same_name _ _ = false
