-- ===== src/Ec/Packet/RoundTrip/Application.antt =====
-- The application layer: opcode, tag count and tags.
use amarr.Prelude.{
  ℕ, ◌+◌, ◌-◌, ◌≤◌, ◌<◌, ◌^◌, ◌≡◌, refl, ap, ◌∙◌, Bool, true, Option, none, ◌∷◌, ◌++◌, arith,
  length, length-append, length-drop, elem,
}
use native.Mathlib.Nat.{mod-eq_of_lt}
use amarr.Prelude.Int.{pos, ◌+ℤ◌, pos-+ℤ, ltb_ℤ}
use amarr.Py.Result.{ok}
use amarr.Py.Seq.{Bytes, Text, At, At-append, get_index-At}
use amarr.Ec.OpCode
use amarr.Ec.OpCode.{op_codes}
use amarr.Ec.Encoding.RoundTrip.{
  fits, header_bytes, read_uint16-At, number_length-At, ushort_to_bytes_utf-fits,
}
use amarr.Ec.Tag.{Tags, nil, cons, count}
use amarr.Ec.Tag.Codec.{parse}
use amarr.Ec.Tag.Wire.{wire, wires, depths, AreEncodable}
use amarr.Ec.Tag.RoundTrip.{parse_with_metadata-wire, encode_subtags-eq-wires, length-wire_pos}
use amarr.Ec.Packet.{Packet}
use amarr.Ec.Packet.Writer.{encode_payload}
use amarr.Ec.Packet.Parser.{Inflated, parse_tags, parse_application}

-- A known opcode, and tags that have a form on the wire.
pub record IsSendable (parse_float : Text → Option Text) (p : Packet) : Type 0 where
  pub known_op_code : elem p.op_code op_codes ≡ true
  pub encodable : AreEncodable parse_float p.flags.utf8 p.tags
  pub count_fits : fits 2 p.flags.utf8 (count p.tags) ≡ true
  pub count_small : count p.tags < 2 ^ 16

abbrev pub payload_bytes : Packet → Bytes
payload_bytes p =
    p.op_code ∷ (header_bytes 2 p.flags.utf8 (count p.tags) ++ wires p.flags.utf8 p.tags)

module _ (parse_float : Text → Option Text) where
  pub encode_payload-eq :
      (p : Packet) → IsSendable parse_float p → encode_payload p ≡ ok (payload_bytes p)
  unfolding encode_payload
  encode_payload-eq p h = rw (
    mod-eq_of_lt h.count_small,
    ushort_to_bytes_utf-fits p.flags.utf8 (count p.tags) h.count_fits,
    encode_subtags-eq-wires parse_float p.flags.utf8 p.tags h.encodable,
  )

  -- The loop reads the tags that end the payload.
  parse_tags-wires :
      (utf : Bool) (ts : Tags) (stack : ℕ) (payload : Bytes) (i : ℕ)
      → AreEncodable parse_float utf ts
      → depths ts ≤ stack
      → At payload i (wires utf ts)
      → i ≤ length payload
      → parse_tags (λ j. parse parse_float stack payload j utf) (length payload) (count ts) (pos i)
        ≡ ok (ts, count ts, pos (length payload))
  unfolding parse_tags wires depths parse
  parse_tags-wires utf nil stack payload i e d a l =
      let last : i ≡ length payload = omega (arith, length-drop i payload, ap length a) in
      ap (λ k. ok (nil, 0, pos k)) last
  parse_tags-wires utf (cons t ts) stack payload i e d a l =
      let w : Bytes = wire utf t in
      let j = i + length w in
      let rest : Bytes = wires utf ts in
      let size : length payload - i ≡ length w + length rest =
        omega (arith, length-drop i payload, ap length a, length-append w rest) in
      let more : ltb_ℤ (pos i) (pos (length payload)) ≡ true =
        ground (arith, length-wire_pos utf t, size) in
      let next : pos (j - 1) +ℤ pos 1 ≡ pos j =
        pos-+ℤ (j - 1) 1 ∙ ap pos (omega (arith, length-wire_pos utf t)) in
      rw (
        more,
        parse_with_metadata-wire parse_float utf t stack payload i rest e.0 (omega arith) a,
        next,
        parse_tags-wires utf ts stack payload j e.1 (omega arith)
            (At-append payload i j w rest refl a) (omega (arith, length-wire_pos utf t)),
      )

  -- The application layer gives back the packet.
  pub parse_application-payload :
      (p : Packet) (inflate : Bytes → ℕ → Option Inflated) (stack : ℕ)
      → IsSendable parse_float p
      → depths p.tags ≤ stack
      → parse_application parse_float inflate stack p.flags p.accepts (payload_bytes p)
        ≡ ok (record p { id = none })
  unfolding parse_application OpCode.from_value
  parse_application-payload p inflate stack h d =
      let utf = p.flags.utf8 in
      let payload : Bytes = payload_bytes p in
      let header : Bytes = header_bytes 2 utf (count p.tags) in
      let ws : Bytes = wires utf p.tags in
      let (b, first, size) =
        number_length-At 2 utf payload 1 (count p.tags) ws (omega arith) h.count_fits refl in
      let next : pos 1 +ℤ pos (length header) ≡ pos (1 + length header) =
        pos-+ℤ 1 (length header) in
      let tags_at : At payload (1 + length header) ws =
        At-append payload 1 (1 + length header) header ws refl refl in
      rw
        (
          first,
          size,
          read_uint16-At utf payload 1 (count p.tags) ws h.count_fits refl,
          get_index-At payload 0 p.op_code (header ++ ws) refl,
          h.known_op_code,
          next,
          parse_tags-wires utf p.tags stack payload (1 + length header) h.encodable d tags_at
              (omega (arith, length-append header ws)),
        )
        (ground arith)
