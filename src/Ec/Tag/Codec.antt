-- ===== src/Ec/Tag/Codec.antt =====
-- `TagEncoder` and `TagParser` of jamule/ec/tag.py.
use amarr.Prelude.{
  ℕ, zero, suc, ◌+◌, ◌*◌, ◌/◌, ◌%◌, ◌^◌, Bool, true, false, Option, [], ◌∷◌, ◌++◌, ltb, ◌==◌,
  if◌then◌else◌, length,
}
use amarr.Prelude.Int.{ℤ, pos, ◌+ℤ◌, ◌-ℤ◌}
use amarr.Py.Result.{Result, ok, err, value_error, recursion_error, ◌>>=◌, ◌>>◌, guard}
use amarr.Py.Seq.{Bytes, Text, get_index, slice}
use amarr.Ec.TagType
use amarr.Ec.TagName
use amarr.Ec.Encoding.{
  number_length, read_uint16, read_uint32, ushort_to_bytes_utf, uint_to_bytes_utf, len_ushort,
  len_ubyte, len_uint,
}
use amarr.Ec.Tag.{Tag, Tags, tag, nil, cons, has_any, count, type_of, subtags}
use amarr.Ec.Tag.Values.{encode_value, parse_value}

abbrev pub tag_name_size : ℕ
tag_name_size = len_ushort

abbrev pub tag_type_size : ℕ
tag_type_size = len_ubyte

abbrev pub tag_length_size : ℕ
tag_length_size = len_uint

abbrev pub subtag_count_size : ℕ
subtag_count_size = len_ushort

-- What a subtag adds to the length of its parent, besides its own.
abbrev pub header_size : Tags → ℕ
header_size subs =
    tag_name_size
    + tag_type_size
    + tag_length_size
    + (if has_any subs then subtag_count_size else 0)

-- `TagEncoder._compute_tag_length`
unfoldable mutual
  pub compute_tag_length : Tag → Result ℕ
  compute_tag_length (tag name name_value v subs) = do
    own ← encode_value v
    rest ← compute_subtags_length subs
    ok (length own + rest)

  pub compute_subtags_length : Tags → Result ℕ
  compute_subtags_length nil = ok 0
  compute_subtags_length (cons t ts) = do
    size ← compute_tag_length t
    rest ← compute_subtags_length ts
    ok (size + header_size (subtags t) + rest)

-- `(tag.name.value << 1) | (0 if not tag.subtags else 1)`
abbrev pub name_and_flag : ℕ → Tags → ℕ
name_and_flag name subs = 2 * name + (if has_any subs then 1 else 0)

abbrev pub subtag_count_bytes : Tags → Bool → Result Bytes
subtag_count_bytes subs utf =
    if has_any subs then ushort_to_bytes_utf (count subs % 2 ^ 16) utf else ok []

-- `TagEncoder.encode`
unfoldable mutual
  pub encode : Tag → Bool → Result Bytes
  encode (tag name name_value v subs) utf = do
    header_name ← ushort_to_bytes_utf (name_and_flag name subs % 2 ^ 16) utf
    theoretical ← compute_tag_length (tag name name_value v subs)
    header_length ← uint_to_bytes_utf theoretical utf
    subtag_count ← subtag_count_bytes subs utf
    subtag_payload ← encode_subtags subs utf
    own ← encode_value v
    ok (
        header_name
        ++ TagType.value (type_of v) ∷ (header_length ++ (subtag_count ++ (subtag_payload ++ own))))

  pub encode_subtags : Tags → Bool → Result Bytes
  encode_subtags nil utf = ok []
  encode_subtags (cons t ts) utf = do
    first ← encode t utf
    rest ← encode_subtags ts utf
    ok (first ++ rest)

-- A parsed tag, its theoretical length and the index of its last byte.
abbrev pub Parsed : Type 0
Parsed = Tag × ℕ × ℤ

-- Parsed subtags, the sum of their theoretical lengths and the index behind the last.
abbrev pub ParsedTags : Type 0
ParsedTags = Tags × ℕ × ℤ

-- `for _ in range(subtag_count)`, with the call for one subtag as an argument.
unfoldable pub parse_subtags : (ℤ → Result Parsed) → ℕ → ℤ → Result ParsedTags
parse_subtags parse_one zero start = ok (nil, 0, start)
parse_subtags parse_one (suc n) start = do
  (subtag, sub_theoretical, sub_end) ← parse_one start
  (others, theoretical, last) ← parse_subtags parse_one n (sub_end +ℤ pos 1)
  ok (cons subtag others, sub_theoretical + theoretical, last)

-- The branch for a tag with subtags: count, subtags, and the check of their number.
unfoldable pub parse_subtag_list : (ℤ → Result Parsed) → Bytes → Bool → ℤ → Result ParsedTags
parse_subtag_list parse_one payload utf start = do
  subtag_count ← read_uint16 payload utf start
  first_byte ← get_index payload start
  size ← number_length first_byte utf subtag_count_size
  (subs, theoretical, last) ← parse_subtags parse_one subtag_count (start +ℤ pos size)
  guard (if ltb subtag_count (count subs) then false else true) value_error
  ok (subs, theoretical, last)

module _ (parse_float : Text → Option Text) where
  -- The body of `TagParser._parse_with_metadata`; `parse_one` is its recursive call.
  unfoldable pub parse_body : (ℤ → Result Parsed) → Bytes → ℤ → Bool → Result Parsed
  parse_body parse_one payload tag_name_index utf = do
    name_and_has_subtags ← read_uint16 payload utf tag_name_index
    let name_raw = name_and_has_subtags / 2 % 2 ^ 16
    let has_subtags = name_and_has_subtags % 2 == 1
    name_byte ← get_index payload tag_name_index
    name_size ← number_length name_byte utf tag_name_size
    let tag_type_index = tag_name_index +ℤ pos name_size
    type_byte ← get_index payload tag_type_index
    let tag_length_index = tag_type_index +ℤ pos tag_type_size
    tag_length ← read_uint32 payload utf tag_length_index
    length_byte ← get_index payload tag_length_index
    length_size ← number_length length_byte utf tag_length_size
    let start = tag_length_index +ℤ pos length_size
    (subs, theoretical, value_start) ←
        if has_subtags then parse_subtag_list parse_one payload utf start else ok (nil, 0, start)
    let value_end = value_start +ℤ (pos tag_length -ℤ pos theoretical -ℤ pos 1)
    let tag_value = slice payload value_start (value_end +ℤ pos 1)
    v ← parse_value parse_float (TagType.from_value type_byte) tag_value
    ok (
      tag (TagName.from_value name_raw) name_raw v subs,
      theoretical
          + (if has_subtags then subtag_count_size else 0)
          + length tag_value
          + (tag_name_size + tag_type_size + tag_length_size),
      value_end,
    )

  -- `TagParser._parse_with_metadata`. The first argument is the number of nested calls that the
  -- interpreter's stack has room for; below that, Python raises `RecursionError`.
  unfoldable pub parse_with_metadata : ℕ → Bytes → ℤ → Bool → Result Parsed
  parse_with_metadata zero payload tag_name_index utf = err recursion_error
  parse_with_metadata (suc stack) payload tag_name_index utf =
      parse_body (λ i. parse_with_metadata stack payload i utf) payload tag_name_index utf

  -- `TagParser.parse`
  unfoldable pub parse : ℕ → Bytes → ℤ → Bool → Result (Tag × ℤ)
  parse stack payload index utf = do
    (t, theoretical, end_index) ← parse_with_metadata stack payload index utf
    ok (t, end_index)
