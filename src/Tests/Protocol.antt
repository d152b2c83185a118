-- ===== src/Tests/Protocol.antt =====
-- Runs of the theorems on tags and packets.
use amarr.Prelude.{
  ℕ, zero, suc, ◌+◌, elem, ◌≡◌, ◌-◌, refl, ap, true, Option, none, some, [], ◌∷◌, ◌++◌, arith,
  length, take, drop, append_assoc, ◌∙◌, sym, take-append-drop,
}
use amarr.Prelude.Int.{pos}
use amarr.Py.Result.{ok, err, unicode_error}
use amarr.Py.Seq.{Bytes, Text}
use amarr.Py.Utf8
use amarr.Py.Struct.{be_bytes}
use amarr.Py.Utf8.{all_scalar}
use amarr.Py.Decimal.{ends_without}
use amarr.Ec.TagName.{ec_tag_partfile_name, ec_tag_partfile}
use amarr.Ec.Encoding.{
  number_to_utf8, uint_to_bytes_utf, ushort_to_bytes_utf, uint_to_bytes, ushort_to_bytes,
  utf8_sequence_length,
}
use amarr.Ec.Encoding.Length.{leading_byte_length, utf8_sequence_length_lem}
use amarr.Ec.Tag.{Tag, tag, nil, cons, name, subtags, custom, ushort, string, type_of}
use amarr.Ec.Tag.Values.{encode_value, parse_value}
use amarr.Ec.Tag.Values.RoundTrip.{IsPlain, parse_value-encode_value}
use amarr.Ec.Tag.Codec.{encode_subtags, compute_tag_length, encode, parse}
use amarr.Ec.Tag.Wire.{
  wires, depths, wire, IsEncodable, or_empty, contents_size, content_size, depth,
}
use amarr.Ec.Tag.RoundTrip.{encode-eq-wire, parse-encode}
use amarr.Ec.Tag.Errors.{encode-length_error}
use amarr.Ec.Packet.{Packet, default_packet}
use amarr.Ec.Packet.Flags.{to_uint, default_flags}
use amarr.Ec.Packet.Stream.{is_open, Stream, contents}
use amarr.Ec.Packet.Writer.{write_transport, accepts_bytes, encode_payload, write}
use amarr.Ec.Packet.Parser.{Inflated, parse_packet}
use amarr.Ec.Packet.RoundTrip.{payload_bytes, IsSendable, parse_packet-write}

abbrev no_floats : Text → Option Text
no_floats t = none

abbrev name_tag : Tag
name_tag = tag ec_tag_partfile_name ec_tag_partfile_name (string (97 ∷ 233 ∷ [])) nil

abbrev file_tag : Tag
file_tag = tag ec_tag_partfile ec_tag_partfile (ushort 300) (cons name_tag nil)

string_IsPlain : IsPlain (97 ∷ 233 ∷ [])
unfolding all_scalar ends_without
string_IsPlain = (refl, refl)

file_tag-IsEncodable : IsEncodable no_floats true file_tag
unfolding all_scalar ends_without encode_value elem contents_size content_size ushort_to_bytes
    be_bytes Utf8.encode Utf8.encode_char Utf8.char_bytes subtags
file_tag-IsEncodable = (
  refl,
  (refl, (λ e. absurd (omega arith))),
  omega arith,
  refl,
  refl,
  omega arith,
  ((refl, (refl, (λ e. absurd (omega arith))), (refl, refl), refl, refl, omega arith, tt), tt),
)

encode-eq-wire_example : encode file_tag true ≡ ok (wire true file_tag)
encode-eq-wire_example = encode-eq-wire no_floats true file_tag file_tag-IsEncodable

-- The file's tag in the middle of a payload.
parse-encode_example :
    parse no_floats 2 ((1 ∷ 2 ∷ []) ++ (wire true file_tag ++ 9 ∷ [])) (pos 2) true
    ≡ ok (file_tag, pos (2 + length (wire true file_tag) - 1))
parse-encode_example =
    parse-encode no_floats true file_tag (wire true file_tag) (1 ∷ 2 ∷ []) (9 ∷ []) 2
      file_tag-IsEncodable (unfold depth in omega arith) encode-eq-wire_example

parse_value-encode_value_example :
    (bs : Bytes) × (encode_value (string (97 ∷ 233 ∷ [])) ≡ ok bs)
    × (parse_value no_floats (type_of (string (97 ∷ 233 ∷ []))) bs ≡ ok (string (97 ∷ 233 ∷ [])))
parse_value-encode_value_example =
    parse_value-encode_value no_floats (string (97 ∷ 233 ∷ [])) string_IsPlain

utf8_sequence_length_lem_example : utf8_sequence_length 0xE2 ≡ leading_byte_length 0xE2
utf8_sequence_length_lem_example = utf8_sequence_length_lem 0xE2 (omega arith)

-- A custom tag of 55296 bytes cannot be sent with UTF-8 numbers.
unfoldable zeros : ℕ → Bytes
zeros zero = []
zeros (suc n) = 0 ∷ zeros n

length-zeros : (n : ℕ) → length (zeros n) ≡ n
unfolding zeros
length-zeros zero = refl
length-zeros (suc n) = omega (arith, length-zeros n)

abbrev long_tag : Tag
long_tag = tag ec_tag_partfile ec_tag_partfile (custom (zeros 55296)) nil

long_tag-length : compute_tag_length long_tag ≡ ok 55296
unfolding compute_tag_length encode_value
long_tag-length = ap ok (omega (arith, length-zeros 55296))

encode-length_error_example : encode long_tag true ≡ err unicode_error
encode-length_error_example =
    encode-length_error long_tag 55296 (unfold name elem in (refl, (λ e. absurd (omega arith))))
      long_tag-length refl

abbrev store_zlib : Bytes → Bytes
store_zlib x = x

-- A decompressor for it: one call gives all, since no input here is longer than the limit.
abbrev unstore_zlib : Bytes → ℕ → Option Inflated
unstore_zlib x limit =
    some (record { chunk = x; unconsumed_tail = []; flushed = some []; eof = true })

abbrev file_packet : Packet
file_packet = record default_packet {
  tags = cons file_tag nil;
  flags = record default_flags { zlib_compressed = true; utf8 = true };
}

file_packet-IsSendable : IsSendable no_floats file_packet
unfolding elem
file_packet-IsSendable = record {
  known_op_code = refl;
  encodable = (file_tag-IsEncodable, tt);
  count_fits = refl;
  count_small = omega arith;
}

-- The packet in two chunks, the first one byte long.
abbrev file_bytes : Bytes
file_bytes = or_empty (write store_zlib file_packet)

file_packet-length : length (payload_bytes file_packet) ≡ 17
unfolding wires wire Utf8.char_bytes encode_value elem contents_size content_size ushort_to_bytes
    be_bytes Utf8.encode Utf8.encode_char subtags
file_packet-length = refl

file_bytes-is_open : (is_open (take 1 file_bytes ∷ drop 1 file_bytes ∷ []) ≡ true)
unfolding write write_transport accepts_bytes encode_payload ushort_to_bytes_utf number_to_utf8
    Utf8.encode_char encode_subtags compute_tag_length encode_value Utf8.encode uint_to_bytes_utf
    ushort_to_bytes be_bytes Utf8.char_bytes subtags to_uint uint_to_bytes
file_bytes-is_open = refl

parse_packet-write_example :
    (bs : Bytes) × (rest : Stream) × (write store_zlib file_packet ≡ ok bs)
    × (parse_packet no_floats unstore_zlib 3 (take 1 file_bytes ∷ drop 1 file_bytes ∷ [])
        ≡ ok (file_packet, rest))
    × (contents rest ≡ [])
parse_packet-write_example =
    parse_packet-write no_floats store_zlib unstore_zlib file_packet []
      (take 1 file_bytes ∷ drop 1 file_bytes ∷ []) 3 (λ x h. refl) file_packet-IsSendable tt refl
      (omega (arith, file_packet-length)) (omega (arith, file_packet-length))
      (omega (arith, file_packet-length)) (unfold depths depth in omega arith) file_bytes-is_open
      (sym (append_assoc (take 1 file_bytes) (drop 1 file_bytes) [])
        ∙ ap (λ l. l ++ []) (take-append-drop 1 file_bytes))
