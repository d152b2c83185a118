-- ===== src/Tests/Requests.antt =====
-- A request as aMule reads it.
use amarr.Prelude.{ℕ, ◌≡◌, refl, true, Option, none, some, [], ◌∷◌, arith, length}
use amarr.Py.Struct.{be_bytes}
use amarr.Py.Seq.{Bytes, Text}
use amarr.Py.Utf8
use amarr.Ec.Encoding.{ushort_to_bytes_utf, uint_to_bytes_utf, number_to_utf8, uint_to_bytes}
use amarr.Ec.Tag.{subtags}
use amarr.Ec.Tag.Values.{encode_value}
use amarr.Ec.Tag.Codec.{encode_subtags, compute_tag_length}
use amarr.Ec.Tag.Wire.{or_empty, wires, wire, contents_size}
use amarr.Ec.Packet.Flags.{to_uint}
use amarr.Ec.Packet.Stream.{is_open}
use amarr.Ec.Packet.Writer.{write, write_transport, accepts_bytes, encode_payload}
use amarr.Ec.Packet.Parser.{Inflated}
use amarr.Ec.Packet.RoundTrip.{payload_bytes}
use amarr.Jamule.Request.{auth_request}
use amarr.Jamule.Request.Queries.{Query, auth, packet_of}
use amarr.Jamule.Request.Received.{Received, packet_of-Received}

abbrev no_floats : Text → Option Text
no_floats t = none

abbrev unchanged : Bytes → Bytes
unchanged x = x

abbrev restored : Bytes → ℕ → Option Inflated
restored x limit = some (record { chunk = x; unconsumed_tail = []; flushed = some []; eof = true })

abbrev password_hash : Bytes
password_hash = 1 ∷ 2 ∷ 3 ∷ 4 ∷ 5 ∷ 6 ∷ 7 ∷ 8 ∷ 9 ∷ 10 ∷ 11 ∷ 12 ∷ 13 ∷ 14 ∷ 15 ∷ 16 ∷ []

abbrev login : Query
login = auth password_hash

abbrev login_bytes : Bytes
login_bytes = or_empty (write unchanged (packet_of login))

login-length : length (payload_bytes (packet_of login)) ≡ 21
unfolding packet_of auth_request wires wire Utf8.char_bytes encode_value contents_size be_bytes
    subtags
login-length = refl

login_bytes-is_open : is_open (login_bytes ∷ []) ≡ true
unfolding packet_of auth_request write write_transport accepts_bytes encode_payload
    ushort_to_bytes_utf number_to_utf8 Utf8.encode_char encode_subtags compute_tag_length
    encode_value uint_to_bytes_utf be_bytes Utf8.char_bytes subtags to_uint uint_to_bytes
login_bytes-is_open = refl

packet_of-Received_example :
    Received no_floats unchanged restored (packet_of login) [] (login_bytes ∷ []) 2
packet_of-Received_example =
    packet_of-Received no_floats unchanged restored login [] (login_bytes ∷ []) 2 (λ x h. refl) refl
      (omega (arith, login-length)) (omega arith) login_bytes-is_open refl
