-- ===== src/Ec/Tag/RoundTrip/Encoder.antt =====
-- `TagEncoder` against the wire format.
use amarr.Prelude.{◌^◌, ◌<◌, ◌≡◌, refl, ap, ◌∙◌, sym, Bool, true, Option}
use native.Mathlib.Nat.{mod-eq_of_lt}
use amarr.Py.Result.{ok}
use amarr.Py.Seq.{Text}
use amarr.Ec.Encoding.{ushort_to_bytes_utf}
use amarr.Ec.Encoding.RoundTrip.{fits, ushort_to_bytes_utf-fits, uint_to_bytes_utf-fits}
use amarr.Ec.Tag.{Tag, Tags, Value, tag, nil, cons, count}
use amarr.Ec.Tag.Values.{encode_value}
use amarr.Ec.Tag.Values.RoundTrip.{IsValue, parse_value-encode_value}
use amarr.Ec.Tag.Codec.{
  compute_tag_length, compute_subtags_length, name_and_flag, subtag_count_bytes, encode,
  encode_subtags,
}
use amarr.Ec.Tag.Wire.{
  or_empty, value_bytes, content_size, contents_size, count_bytes, wire, wires, IsEncodable,
  AreEncodable, name_and_flag-fits,
}

module _ (parse_float : Text → Option Text) where
  pub encode_value-eq-value_bytes :
      (v : Value) → IsValue parse_float v → encode_value v ≡ ok (value_bytes v)
  encode_value-eq-value_bytes v h =
      let (bs, e, p) = parse_value-encode_value parse_float v h in
      e ∙ ap (λ r. ok (or_empty r)) (sym e)

module _ (parse_float : Text → Option Text) (utf : Bool) where
  mutual
    unfolding compute_tag_length content_size

    compute_tag_length-content :
        (t : Tag) → IsEncodable parse_float utf t → compute_tag_length t ≡ ok (content_size t)
    compute_tag_length-content (tag name nv v subs) e =
        rw (encode_value-eq-value_bytes parse_float v e.2, compute_subtags_length-contents subs e.6)

    compute_subtags_length-contents :
        (ts : Tags)
        → AreEncodable parse_float utf ts
        → compute_subtags_length ts ≡ ok (contents_size ts)
    compute_subtags_length-contents nil e = refl
    compute_subtags_length-contents (cons t ts) e =
        rw (compute_tag_length-content t e.0, compute_subtags_length-contents ts e.1)

  -- The theoretical length of an encodable tag is its content's size.
  pub compute_tag_length-eq-content_size :
      (t : Tag) → IsEncodable parse_float utf t → compute_tag_length t ≡ ok (content_size t)
  compute_tag_length-eq-content_size t e = compute_tag_length-content t e

  subtag_count_bytes-eq :
      (subs : Tags)
      → fits 2 utf (count subs) ≡ true
      → count subs < 2 ^ 16
      → subtag_count_bytes subs utf ≡ ok (count_bytes utf subs)
  subtag_count_bytes-eq nil f l = refl
  subtag_count_bytes-eq (cons t ts) f l =
      ap (λ n. ushort_to_bytes_utf n utf) (mod-eq_of_lt l)
      ∙ ushort_to_bytes_utf-fits utf (count (cons t ts)) f

  mutual
    unfolding encode wire content_size

    encode-wire : (t : Tag) → IsEncodable parse_float utf t → encode t utf ≡ ok (wire utf t)
    encode-wire (tag name nv v subs) e =
        let (f, l) = name_and_flag-fits utf name subs e.1 in
        rw (
          mod-eq_of_lt l,
          ushort_to_bytes_utf-fits utf (name_and_flag name subs) f,
          compute_tag_length-content (tag name nv v subs) e,
          uint_to_bytes_utf-fits utf (content_size (tag name nv v subs)) e.3,
          subtag_count_bytes-eq subs e.4 e.5,
          encode_subtags-wires subs e.6,
          encode_value-eq-value_bytes parse_float v e.2,
        )

    encode_subtags-wires :
        (ts : Tags) → AreEncodable parse_float utf ts → encode_subtags ts utf ≡ ok (wires utf ts)
    encode_subtags-wires nil e = refl
    encode_subtags-wires (cons t ts) e = rw (encode-wire t e.0, encode_subtags-wires ts e.1)

  pub encode-eq-wire : (t : Tag) → IsEncodable parse_float utf t → encode t utf ≡ ok (wire utf t)
  encode-eq-wire t e = encode-wire t e

  pub encode_subtags-eq-wires :
      (ts : Tags) → AreEncodable parse_float utf ts → encode_subtags ts utf ≡ ok (wires utf ts)
  encode_subtags-eq-wires ts e = encode_subtags-wires ts e
