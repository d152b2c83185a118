-- ===== src/Tests/Replies.antt =====
-- An aMule that answers what it is asked in a fixed order, and the packets that it sends.
use amarr.Prelude.{
  ℕ, zero, suc, ◌+◌, ◌≡◌, refl, true, false, Option, none, some, [], ◌∷◌, arith, length,
}
use amarr.Py.Result.{ok}
use amarr.Py.Seq.{Bytes, Text}
use amarr.Py.Struct.{be_bytes}
use amarr.Ec.OpCode.{ec_op_auth_salt, ec_op_auth_ok, ec_op_noop}
use amarr.Ec.TagName.{ec_tag_passwd_salt, ec_tag_server_version}
use amarr.Ec.Tag.{nil, cons, ulong, string}
use amarr.Ec.Packet.{Packet}
use amarr.Ec.Packet.Stream.{Stream}
use amarr.Ec.Packet.Parser.{parse_packet}
use amarr.Jamule.Request.{leaf, request}
use amarr.Jamule.Connection.{Network, Host, refuse_error}
use amarr.Jamule.Password.{hash_password}
use amarr.Jamule.Response.{auth_salt, auth_ok, noop, parse}

abbrev pub salt_reply : Packet
salt_reply = request ec_op_auth_salt (cons (leaf ec_tag_passwd_salt (ulong 0x55099a4aea510c43)) nil)

abbrev pub login_reply : Packet
login_reply =
    request ec_op_auth_ok (cons (leaf ec_tag_server_version (string (50 ∷ 46 ∷ 51 ∷ []))) nil)

abbrev pub noop_reply : Packet
noop_reply = request ec_op_noop nil

-- The packets above, as they come over the wire.
abbrev pub salt_bytes : Bytes
salt_bytes =
    0 ∷ 0 ∷ 0 ∷ 34 ∷ 0 ∷ 0 ∷ 0 ∷ 13 ∷ 79 ∷ 1 ∷ 22 ∷ 5 ∷ 8 ∷ 85 ∷ 9 ∷ 154 ∷ 74 ∷ 234 ∷ 81 ∷ 12 ∷ 67
    ∷ []

abbrev pub login_bytes : Bytes
login_bytes =
    0 ∷ 0 ∷ 0 ∷ 34 ∷ 0 ∷ 0 ∷ 0 ∷ 11 ∷ 4 ∷ 1 ∷ 224 ∷ 168 ∷ 150 ∷ 6 ∷ 4 ∷ 50 ∷ 46 ∷ 51 ∷ 0 ∷ []

abbrev pub noop_bytes : Bytes
noop_bytes = 0 ∷ 0 ∷ 0 ∷ 34 ∷ 0 ∷ 0 ∷ 0 ∷ 2 ∷ 1 ∷ 0 ∷ []

-- What arrives after so many steps.
abbrev pub reply : ℕ → Bytes
reply zero = []
reply (suc zero) = salt_bytes
reply (suc (suc zero)) = login_bytes
reply _ = noop_bytes

abbrev pub amule : Network ℕ
amule = record {
  build = λ n. (ok tt, suc n);
  close = λ n. (ok tt, n);
  exchange = λ bytes n. (ok (reply n ∷ []), suc n);
}

abbrev pub host : Host
host = record {
  parse_float = λ t. none;
  compress = λ b. b;
  inflate = λ b n. none;
  md5 = λ b. be_bytes 16 (length b);
  stack = 8;
  password = 112 ∷ 119 ∷ [];
}

abbrev pub hash : Bytes
hash = be_bytes 16 64

pub hash-hash_password : hash_password host.md5 host.password 0x55099a4aea510c43 ≡ ok hash
unfolding hash_password amarr.Py.Utf8.encode amarr.Py.Utf8.encode_char amarr.Jamule.Hex.hex be_bytes
hash-hash_password = refl

pub replies-read :
    (parse_packet host.parse_float host.inflate host.stack (salt_bytes ∷ []) ≡ ok (salt_reply, []))
    × (parse_packet host.parse_float host.inflate host.stack (login_bytes ∷ [])
        ≡ ok (login_reply, []))
    × (parse_packet host.parse_float host.inflate host.stack (noop_bytes ∷ [])
        ≡ ok (noop_reply, []))
unfolding amarr.Ec.Packet.Parser.parse_packet amarr.Ec.Packet.Parser.parse_transport
    amarr.Ec.Encoding.bytes_to_uint16 amarr.Ec.Encoding.bytes_to_uint32
    amarr.Ec.Encoding.bytes_to_uint64 amarr.Ec.Encoding.number_length amarr.Ec.Encoding.read_uint16
    amarr.Ec.Encoding.read_uint32 amarr.Ec.Encoding.read_utf8_number
    amarr.Ec.Encoding.utf8_sequence_length amarr.Ec.OpCode.from_value
    amarr.Ec.Packet.Flags.from_uint amarr.Ec.Packet.Flags.known_flags amarr.Ec.Packet.Flags.to_uint
    amarr.Ec.Packet.Parser.parse_accepts amarr.Ec.Packet.Parser.parse_application
    amarr.Ec.Packet.Parser.parse_flags amarr.Ec.Packet.Parser.parse_tags
    amarr.Ec.Packet.Parser.read_uint amarr.Ec.Packet.Stream.read_n amarr.Ec.Tag.Codec.parse
    amarr.Ec.Tag.Codec.parse_body amarr.Ec.Tag.Codec.parse_subtag_list
    amarr.Ec.Tag.Codec.parse_subtags amarr.Ec.Tag.Codec.parse_with_metadata
    amarr.Ec.Tag.Values.parse_value amarr.Ec.Tag.subtags amarr.Ec.TagName.from_value
    amarr.Ec.TagType.from_value amarr.Ec.TagType.value amarr.Prelude.Int.◌+ℤ◌ amarr.Prelude.Int.◌-ℤ◌
    amarr.Prelude.elem amarr.Py.Decimal.rstrip amarr.Py.Seq.get_index amarr.Py.Seq.slice
    amarr.Py.Struct.of_be amarr.Py.Struct.unpack_be amarr.Py.Utf8.decode amarr.Py.Utf8.decode_char
    amarr.Py.Utf8.decode_rounds
replies-read = (refl, refl, refl)

pub replies-meant :
    (refuse_error (parse salt_reply) ≡ ok (auth_salt 0x55099a4aea510c43))
    × (refuse_error (parse login_reply) ≡ ok (auth_ok (50 ∷ 46 ∷ 51 ∷ [])))
    × (refuse_error (parse noop_reply) ≡ ok noop)
unfolding parse amarr.Jamule.Response.response_of amarr.Ec.Tag.name amarr.Ec.Tag.Find.long_value
    amarr.Ec.Tag.value amarr.Ec.Tag.Find.string_value
replies-meant = (refl, refl, refl)
