-- ===== src/Ec/Tag/RoundTrip.antt =====
-- The encoder writes the wire format, and the parser reads it back.
mod Encoder
mod Steps
use Prim.Native.Nat.{max}
use amarr.Prelude.{
  ℕ, zero, suc, ◌+◌, ◌-◌, ◌≤◌, ◌≡◌, refl, ap, ◌∙◌, sym, Bool, Option, ◌++◌, append_assoc, arith,
  length, length-append, true, drop-append,
}
use amarr.Prelude.Int.{pos, ◌+ℤ◌, pos-+ℤ}
use amarr.Py.Result.{Result, ok, ◌>>=◌, ok-injective}
use amarr.Py.Seq.{Bytes, Text, At, At-append}
use amarr.Ec.Encoding.RoundTrip.{fits, header_bytes}
use amarr.Ec.Tag.{Tag, Tags, tag, nil, cons, count, subtags}
use amarr.Ec.Tag.Codec.{header_size, encode, parse_subtags, parse_with_metadata, parse}
use amarr.Ec.Tag.Wire.{
  content_size, contents_size, wire, wires, depth, depths, IsEncodable, AreEncodable,
}
pub use Encoder.{compute_tag_length-eq-content_size, encode-eq-wire, encode_subtags-eq-wires}
pub use Steps.{length-wire_pos}
use Steps.{parse_body-At}

module _ (parse_float : Text → Option Text) (utf : Bool) where
  mutual
    unfolding parse_with_metadata parse_subtags depth content_size wire subtags

    -- A tag on the wire is parsed to that tag, its theoretical length and its last index.
    pub parse_with_metadata-wire :
        (t : Tag) (stack : ℕ) (payload : Bytes) (i : ℕ) (s : Bytes)
        → IsEncodable parse_float utf t
        → depth t ≤ stack
        → At payload i (wire utf t ++ s)
        → parse_with_metadata parse_float stack payload (pos i) utf
          ≡ ok (t, content_size t + header_size (subtags t), pos (i + length (wire utf t) - 1))
    parse_with_metadata-wire (tag name nv v subs) zero payload i s e d a = absurd (omega arith)
    parse_with_metadata-wire (tag name nv v subs) (suc stack) payload i s e d a =
        parse_body-At parse_float utf payload
          (λ j. parse_with_metadata parse_float stack payload j utf) name nv v subs i s e
          (λ j s' a'. parse_subtags-wires subs stack payload j s' (e.6) (omega arith) a') a

    parse_subtags-wires :
        (ts : Tags) (stack : ℕ) (payload : Bytes) (i : ℕ) (s : Bytes)
        → AreEncodable parse_float utf ts
        → depths ts ≤ stack
        → At payload i (wires utf ts ++ s)
        → parse_subtags
            (λ j. parse_with_metadata parse_float stack payload j utf)
            (count ts)
            (pos i)
          ≡ ok (ts, contents_size ts, pos (i + length (wires utf ts)))
    parse_subtags-wires nil stack payload i s e d a =
        let here : i ≡ i + 0 = omega arith in ap (λ k. ok (nil, 0, pos k)) here
    parse_subtags-wires (cons t ts) stack payload i s e d a =
        let w : Bytes = wire utf t in
        let a0 : At payload i (w ++ (wires utf ts ++ s)) = a ∙ append_assoc w (wires utf ts) s in
        let j = i + length w in
        let next : pos (j - 1) +ℤ pos 1 ≡ pos j =
          pos-+ℤ (j - 1) 1 ∙ ap pos (omega (arith, length-wire_pos utf t)) in
        let ends : j + length (wires utf ts) ≡ i + length (w ++ wires utf ts) =
          omega (arith, length-append w (wires utf ts)) in
        rw
          (
            parse_with_metadata-wire t stack payload i (wires utf ts ++ s) e.0 (omega arith) a0,
            next,
            parse_subtags-wires ts stack payload j s e.1 (omega arith)
                (At-append payload i j w (wires utf ts ++ s) refl a0),
          )
          (ap (λ k. ok (cons t ts, contents_size (cons t ts), pos k)) ends)

  -- `TagParser.parse` reads an encodable tag back from anywhere in a payload, with the index of
  -- the tag's last byte, once the stack has room for the tag's nesting.
  pub parse-encode :
      (t : Tag) (bs before after : Bytes) (stack : ℕ)
      → IsEncodable parse_float utf t
      → depth t ≤ stack
      → encode t utf ≡ ok bs
      → parse parse_float stack (before ++ (bs ++ after)) (pos (length before)) utf
        ≡ ok (t, pos (length before + length bs - 1))
  unfolding parse
  parse-encode t bs before after stack e d h =
      let same : wire utf t ≡ bs = ok-injective (sym (encode-eq-wire parse_float utf t e) ∙ h) in
      rw (← same) (
        rw
          (parse_with_metadata-wire t stack (before ++ (wire utf t ++ after)) (length before) after
            e d (drop-append before (wire utf t ++ after)))
          refl)
