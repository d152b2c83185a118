-- ===== src/Ec/Packet/Writer.antt =====
-- `PacketWriter` of jamule/ec/packet.py. The result is what has been written when `write` returns;
-- on an exception its only caller drops the buffer.
use amarr.Prelude.{
  ℕ, ◌%◌, ◌^◌, Bool, true, false, Option, none, some, [], ◌∷◌, ◌++◌, if◌then◌else◌, length,
}
use amarr.Py.Result.{Result, ok, err, invalid_ec, ◌>>=◌, ◌>>◌}
use amarr.Py.Seq.{Bytes}
use amarr.Ec.Encoding.{uint_to_bytes, ushort_to_bytes_utf}
use amarr.Ec.Tag.{count}
use amarr.Ec.Tag.Codec.{encode_subtags}
use amarr.Ec.Packet.{Packet}
use amarr.Ec.Packet.Flags.{TransmissionFlags, to_uint}

-- `_encode_payload`: opcode, tag count and the tags one after the other.
unfoldable pub encode_payload : Packet → Result Bytes
encode_payload p = do
  tag_count ← ushort_to_bytes_utf (count p.tags % 2 ^ 16) p.flags.utf8
  tags ← encode_subtags p.tags p.flags.utf8
  ok (p.op_code ∷ (tag_count ++ tags))

-- The accept flags, where the flags announce them.
unfoldable pub accepts_bytes : Bool → Option TransmissionFlags → Result Bytes
accepts_bytes false accepts = ok []
accepts_bytes true none = err invalid_ec
accepts_bytes true (some f) = ok (uint_to_bytes (to_uint f))

abbrev pub check_id : Bool → Option ℕ → Result (Unit {0})
check_id true none = err invalid_ec
check_id _ _ = ok tt

-- `zlib.compress` is a parameter.
module _ (compress : Bytes → Bytes) where
  unfoldable pub write_transport : Packet → Result Bytes
  write_transport p = do
    accepts ← accepts_bytes p.flags.accepts p.accepts
    raw_payload ← encode_payload p
    let payload = if p.flags.zlib_compressed then compress raw_payload else raw_payload
    ok (uint_to_bytes (to_uint p.flags) ++ (accepts ++ (uint_to_bytes (length payload) ++ payload)))

  unfoldable pub write : Packet → Result Bytes
  write p = do check_id p.flags.has_id p.id; write_transport p
