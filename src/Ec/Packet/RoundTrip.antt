-- ===== src/Ec/Packet/RoundTrip.antt =====
-- What the writer sends is what the parser receives.
mod Transport
mod Application
use amarr.Prelude.{
  ℕ, ◌+◌, ◌*◌, ◌≤◌, ◌<◌, ◌^◌, ◌≡◌, ◌≢◌, refl, ap, ◌∙◌, sym, Bool, true, false, Option, none, some,
  List, [], ◌∷◌, ◌++◌, append_assoc, arith, if◌then◌else◌, length, elem,
}
use amarr.Py.Result.{Result, ok, ◌>>=◌, ◌>>◌, ok-injective}
use amarr.Py.Seq.{Bytes, Text}
use amarr.Ec.Encoding.{uint_to_bytes}
use amarr.Ec.Tag.Wire.{depths, or_empty}
use amarr.Ec.Packet.{Packet}
use amarr.Ec.Packet.Flags.{to_uint}
use amarr.Ec.Packet.Stream.{Stream, contents, is_open}
use amarr.Ec.Packet.Writer.{encode_payload, write, write_transport}
use amarr.Ec.Packet.Parser.{Inflated, max_decompressed_size, parse_packet, parse_application}
pub use Transport.{transmitted, InflatesBack, AcceptsAnnounced, HasId}
pub use Application.{IsSendable, payload_bytes}
use Transport.{write-eq-framed, write-AcceptsAnnounced, parse_transport-framed}
use Application.{encode_payload-eq, parse_application-payload}

module _ (parse_float : Text → Option Text) (compress : Bytes → Bytes)
    (inflate : Bytes → ℕ → Option Inflated) where
  parse_packet-written :
      (p : Packet) (raw bs after : Bytes) (s : Stream) (stack : ℕ)
      → InflatesBack compress inflate
      → IsSendable parse_float p
      → AcceptsAnnounced p
      → encode_payload p ≡ ok raw
      → length raw ≤ max_decompressed_size
      → length (transmitted compress p raw) ≢ 0
      → length (transmitted compress p raw) < 2 ^ 32
      → depths p.tags ≤ stack
      → write compress p ≡ ok bs
      → is_open s ≡ true
      → contents s ≡ bs ++ after
      → (rest : Stream) × (parse_packet parse_float inflate stack s
          ≡ ok (record p { id = none }, rest))
        × (contents rest ≡ after)
  unfolding parse_packet
  parse_packet-written p raw bs after s stack z ps ac er small ne lt d w o c =
      let (a, written, bytes) = write-eq-framed compress p raw bs after ac er w in
      let (rest, transport, left) =
        parse_transport-framed parse_float compress inflate stack z p a raw after s ac written small
          ne lt o (c ∙ bytes) in
      let whole : payload_bytes p ≡ raw =
        ok-injective (sym (encode_payload-eq parse_float p ps) ∙ er) in
      let application : parse_application parse_float inflate stack p.flags p.accepts raw
          ≡ ok (record p { id = none }) =
        ap (parse_application parse_float inflate stack p.flags p.accepts) (sym whole)
        ∙ parse_application-payload parse_float p inflate stack ps d in
      (rest, rw (transport, application), left)

  -- A packet of known codes and numbers that fit, with the accept flags and the id that its flags
  -- announce, is written: its payload is at most 50 MiB, not empty when sent, and below 4 GiB. What is
  -- written is parsed back to the packet, however the stream is cut and whatever follows it; only the
  -- id, which is not sent, is lost.
  pub parse_packet-write :
      (p : Packet) (after : Bytes) (s : Stream) (stack : ℕ)
      → InflatesBack compress inflate
      → IsSendable parse_float p
      → AcceptsAnnounced p
      → HasId p
      → length (payload_bytes p) ≤ max_decompressed_size
      → length (transmitted compress p (payload_bytes p)) ≢ 0
      → length (transmitted compress p (payload_bytes p)) < 2 ^ 32
      → depths p.tags ≤ stack
      → is_open s ≡ true
      → contents s ≡ or_empty (write compress p) ++ after
      → (bs : Bytes) × (rest : Stream) × (write compress p ≡ ok bs)
        × (parse_packet parse_float inflate stack s ≡ ok (record p { id = none }, rest))
        × (contents rest ≡ after)
  parse_packet-write p after s stack z ps ac i small ne lt d o c =
      let raw = payload_bytes p in
      let encoded = encode_payload-eq parse_float p ps in
      let (bs, w) = write-AcceptsAnnounced compress p raw ac i encoded in
      let whole : contents s ≡ bs ++ after = c ∙ ap (λ r. or_empty r ++ after) w in
      let (rest, parsed, left) =
        parse_packet-written p raw bs after s stack z ps ac encoded small ne lt d w o whole in
      (bs, rest, w, parsed, left)
