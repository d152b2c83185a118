-- ===== src/Ec/Packet/Parser.antt =====
-- `PacketParser` of jamule/ec/packet.py.
use amarr.Prelude.{
  ℕ, zero, suc, ◌+◌, ◌*◌, Bool, true, false, not, Option, none, some, ◌++◌, ltb, ◌==◌,
  if◌then◌else◌, length,
}
use amarr.Prelude.Int.{ℤ, pos, ◌+ℤ◌, ltb_ℤ, pos_part, neg_part}
use amarr.Py.Result.{Result, ok, err, invalid_ec, ◌>>=◌, ◌>>◌, guard}
use amarr.Py.Seq.{Bytes, Text, get_index}
use amarr.Ec.OpCode
use amarr.Ec.Encoding.{read_uint32, read_uint16, number_length, len_ushort}
use amarr.Ec.Tag.{Tag, Tags, nil, cons}
use amarr.Ec.Tag.Codec.{parse}
use amarr.Ec.Packet.{Packet}
use amarr.Ec.Packet.Flags.{TransmissionFlags, known_flags}
use amarr.Ec.Packet.Stream.{Stream, read_n}

abbrev pub max_decompressed_size : ℕ
max_decompressed_size = 50 * 1024 * 1024

-- What a fresh `zlib.decompressobj()` answers to `decompress(data, max_length)` and `flush()`.
-- `none` is `zlib.error`.
pub record Inflated : Type 0 where
  pub chunk : Bytes
  pub unconsumed_tail : Bytes
  pub flushed : Option Bytes
  pub eof : Bool

abbrev pub is_empty : Bytes → Bool
is_empty bs = length bs == 0

abbrev finish_inflate : Bytes → Bool → Option Bytes → Result Bytes
finish_inflate chunk eof none = err invalid_ec
finish_inflate chunk eof (some flushed) = do
  guard eof invalid_ec
  guard (not (ltb max_decompressed_size (length (chunk ++ flushed)))) invalid_ec
  ok (chunk ++ flushed)

abbrev checked_inflate : Option Inflated → Result Bytes
checked_inflate none = err invalid_ec
checked_inflate (some out) = do
  guard (is_empty out.unconsumed_tail) invalid_ec
  finish_inflate out.chunk out.eof out.flushed

abbrev pub eqb_ℤ : ℤ → ℤ → Bool
eqb_ℤ a b = pos_part a + neg_part b == pos_part b + neg_part a

-- `_read_uint`
unfoldable pub read_uint : Stream → Result (ℕ × Stream)
read_uint s = do (bs, rest) ← read_n 4 s; n ← read_uint32 bs false (pos 0); ok (n, rest)

-- `_parse_flags`
unfoldable pub parse_flags : Stream → Result (TransmissionFlags × Stream)
parse_flags s = do (n, rest) ← read_uint s; flags ← known_flags n; ok (flags, rest)

unfoldable pub parse_accepts : Bool → Stream → Result (Option TransmissionFlags × Stream)
parse_accepts false s = ok (none, s)
parse_accepts true s = do (flags, rest) ← parse_flags s; ok (some flags, rest)

abbrev pub Transport : Type 0
Transport = TransmissionFlags × Option TransmissionFlags × Bytes × Stream

-- The `while` loop of `_parse_application`. The first argument is `tags_count - tag_counter`, so the
-- loop ends; the result has the tags, how many they are, and the index.
unfoldable pub parse_tags : (ℤ → Result (Tag × ℤ)) → ℕ → ℕ → ℤ → Result (Tags × ℕ × ℤ)
parse_tags parse_one size zero index = ok (nil, 0, index)
parse_tags parse_one size (suc left) index =
    let more = do
      (t, end_index) ← parse_one index
      (ts, parsed, last) ← parse_tags parse_one size left (end_index +ℤ pos 1)
      ok (cons t ts, suc parsed, last)
    in if ltb_ℤ index (pos size) then more else ok (nil, 0, index)

-- `float` and the decompressor are parameters; `stack` is the room for nested calls.
module _ (parse_float : Text → Option Text) (inflate : Bytes → ℕ → Option Inflated)
    (stack : ℕ) where
  -- `_decompress_payload`, behind its `_read_n`
  unfoldable pub decompress : Bytes → Result Bytes
  decompress compressed = checked_inflate (inflate compressed (max_decompressed_size + 1))

  unfoldable pub parse_transport : Stream → Result Transport
  parse_transport s = do
    (flags, s₁) ← parse_flags s
    (accepts_flags, s₂) ← parse_accepts flags.accepts s₁
    (size, s₃) ← read_uint s₂
    guard (not (size == 0)) invalid_ec
    (raw, s₄) ← read_n size s₃
    payload ← (if flags.zlib_compressed then decompress raw else ok raw)
    ok (flags, accepts_flags, payload, s₄)

  unfoldable pub parse_application :
      TransmissionFlags → Option TransmissionFlags → Bytes → Result Packet
  parse_application flags accepts_flags payload = do
    count_byte ← get_index payload (pos 1)
    count_size ← number_length count_byte flags.utf8 len_ushort
    tags_count ← read_uint16 payload flags.utf8 (pos 1)
    op_byte ← get_index payload (pos 0)
    op_code ← OpCode.from_value op_byte
    (tag_list, tag_counter, index) ←
        parse_tags (λ i. parse parse_float stack payload i flags.utf8) (length payload) tags_count
          (pos 1 +ℤ pos count_size)
    guard (eqb_ℤ index (pos (length payload))) invalid_ec
    guard (tag_counter == tags_count) invalid_ec
    ok (record {
      op_code = op_code;
      tags = tag_list;
      flags = flags;
      accepts = accepts_flags;
      id = none;
    })

  -- `PacketParser.parse`, with what it leaves of the stream.
  unfoldable pub parse_packet : Stream → Result (Packet × Stream)
  parse_packet s = do
    (flags, accepts_flags, payload, rest) ← parse_transport s
    packet ← parse_application flags accepts_flags payload
    ok (packet, rest)
