-- ===== src/Tests/Sessions.antt =====
-- Sessions with such an aMule: a login with a request, a magnet link that is added, a search.
use amarr.Prelude.{ℕ, ◌+◌, ◌≡◌, refl, true, false, none, some, [], ◌∷◌, ◌++◌, arith}
use amarr.Py.Result.{ok, err, invalid_ec}
use amarr.Py.Seq.{Bytes, Text}
use amarr.Py.Struct.{be_bytes}
use amarr.Ec.Packet.{Packet}
use amarr.Ec.Packet.Stream.{Stream}
use amarr.Ec.Packet.Writer.{write}
use amarr.Ec.Packet.Unread.{unread}
use amarr.Jamule.Model.{DownloadCommand}
use amarr.Jamule.Request.{salt_request, auth_request, download_command_request}
use amarr.Jamule.Response.{auth_salt, auth_ok, noop}
use amarr.Jamule.Connection.{Network, open_socket, send_request, received, disconnected}
use amarr.Jamule.Connection.Login.{fresh, Answers, send_request-login}
use amarr.Jamule.Connection.Sound.{is_sound, IsSettled, send_request-IsSettled}
use amarr.Jamule.Connection.OutOfStep.{send_request-out_of_step}
use amarr.Tests.Replies.{
  salt_reply, login_reply, noop_reply, noop_bytes, amule, host, hash, hash-hash_password,
  replies-read, replies-meant,
}

abbrev pause_request : Packet
pause_request = download_command_request hash DownloadCommand.pause

send_request-IsSettled_example :
    let (r, (c', w')) = send_request amule host pause_request (disconnected, 0) in
    IsSettled amule host r c' × (is_sound c' ≡ true)
send_request-IsSettled_example = send_request-IsSettled amule host pause_request disconnected 0 refl

pub amule-opens : open_socket amule (disconnected, 0) ≡ (ok tt, (fresh false, 1))
unfolding open_socket
amule-opens = refl

pub salt-Answers : Answers amule host salt_request (auth_salt 0x55099a4aea510c43) 1 2
unfolding salt_request write amarr.Ec.Packet.Writer.write_transport
    amarr.Ec.Packet.Writer.accepts_bytes amarr.Ec.Packet.Writer.encode_payload
    amarr.Ec.Encoding.ushort_to_bytes_utf amarr.Ec.Encoding.number_to_utf8 amarr.Py.Utf8.encode_char
    amarr.Ec.Tag.Codec.encode_subtags amarr.Ec.Tag.Codec.compute_tag_length
    amarr.Ec.Tag.Values.encode_value amarr.Py.Utf8.encode amarr.Ec.Encoding.uint_to_bytes_utf
    amarr.Py.Utf8.char_bytes amarr.Ec.Encoding.ushort_to_bytes be_bytes
salt-Answers = record {
  bytes = _;
  arrived = _;
  packet = salt_reply;
  written = refl;
  exchanged = refl;
  read = replies-read.0;
  meant = replies-meant.0;
}

pub login-Answers : Answers amule host (auth_request hash) (auth_ok (50 ∷ 46 ∷ 51 ∷ [])) 2 3
unfolding auth_request write amarr.Ec.Packet.Writer.write_transport
    amarr.Ec.Packet.Writer.accepts_bytes amarr.Ec.Packet.Writer.encode_payload
    amarr.Ec.Encoding.ushort_to_bytes_utf amarr.Ec.Encoding.number_to_utf8 amarr.Py.Utf8.encode_char
    amarr.Ec.Tag.Codec.encode_subtags amarr.Ec.Tag.Codec.compute_tag_length
    amarr.Ec.Tag.Values.encode_value amarr.Py.Utf8.encode amarr.Ec.Encoding.uint_to_bytes_utf
    amarr.Py.Utf8.char_bytes amarr.Ec.Encoding.ushort_to_bytes be_bytes
login-Answers = record {
  bytes = _;
  arrived = _;
  packet = login_reply;
  written = refl;
  exchanged = refl;
  read = replies-read.1;
  meant = replies-meant.1;
}

pause-Answers : Answers amule host pause_request noop 3 4
unfolding download_command_request amarr.Jamule.Model.op_code write
    amarr.Ec.Packet.Writer.write_transport amarr.Ec.Packet.Writer.accepts_bytes
    amarr.Ec.Packet.Writer.encode_payload amarr.Ec.Encoding.ushort_to_bytes_utf
    amarr.Ec.Encoding.number_to_utf8 amarr.Py.Utf8.encode_char amarr.Ec.Tag.Codec.encode_subtags
    amarr.Ec.Tag.Codec.compute_tag_length amarr.Ec.Tag.Values.encode_value amarr.Py.Utf8.encode
    amarr.Ec.Encoding.uint_to_bytes_utf amarr.Py.Utf8.char_bytes amarr.Ec.Encoding.ushort_to_bytes
    be_bytes
pause-Answers = record {
  bytes = _;
  arrived = _;
  packet = noop_reply;
  written = refl;
  exchanged = refl;
  read = replies-read.2;
  meant = replies-meant.2;
}

send_request-login_example :
    send_request amule host pause_request (disconnected, 0) ≡ (ok noop, (fresh true, 4))
send_request-login_example =
    send_request-login amule host pause_request noop none 0x55099a4aea510c43 hash
      (50 ∷ 46 ∷ 51 ∷ []) 0 1 2 3 4 amule-opens salt-Answers hash-hash_password login-Answers
      pause-Answers

-- A reply with unknown flags.
abbrev garbled_bytes : Bytes
garbled_bytes = 255 ∷ 255 ∷ 255 ∷ 255 ∷ noop_bytes

abbrev garbled : Network ℕ
garbled = record amule { exchange = λ bytes n. (ok (garbled_bytes ∷ []), n + 1) }

garbled-received : received host (garbled_bytes ∷ []) ≡ err invalid_ec
unfolding received amarr.Ec.Packet.Parser.parse_packet amarr.Ec.Packet.Parser.parse_transport
    amarr.Ec.Packet.Parser.parse_flags amarr.Ec.Packet.Parser.read_uint
    amarr.Ec.Packet.Stream.read_n amarr.Ec.Encoding.read_uint32 amarr.Ec.Encoding.bytes_to_uint32
    amarr.Py.Struct.unpack_be amarr.Py.Seq.slice amarr.Prelude.Int.◌+ℤ◌
    amarr.Ec.Packet.Flags.known_flags amarr.Py.Struct.of_be
garbled-received = refl

abbrev pause_bytes : Bytes
pause_bytes = pause-Answers.bytes

send_request-out_of_step_example :
    let (r, after) =
      send_request garbled host pause_request (record { connected = true; reader = some [] }, 0) in
    (r ≡ err invalid_ec)
    × ((send_request garbled host pause_request after).0
        ≡ received host (unread (garbled_bytes ∷ []) ++ garbled_bytes ∷ []))
send_request-out_of_step_example =
    send_request-out_of_step garbled host pause_request pause_request [] (garbled_bytes ∷ [])
      (garbled_bytes ∷ []) pause_bytes pause_bytes invalid_ec 0 1 2 pause-Answers.written refl
      garbled-received refl pause-Answers.written refl
