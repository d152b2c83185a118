-- ===== src/Ec/Tag/RoundTrip/Steps.antt =====
-- One call of the parser, on a tag whose subtags are parsed as they should be.
use amarr.Prelude.{
  ℕ, ◌+◌, ◌-◌, ◌/◌, ◌%◌, ◌^◌, ◌≤◌, ◌<◌, ◌≡◌, refl, ap, ◌∙◌, sym, Bool, true, false, Option, [], ◌∷◌,
  ◌++◌, append_assoc, arith, ltb, ◌==◌, if◌then◌else◌, length, length-append,
}
use amarr.Prelude.Int.{ℤ, pos, ◌+ℤ◌, ◌-ℤ◌, pos-+ℤ}
use amarr.Py.Result.{Result, ok}
use amarr.Py.Seq.{Bytes, Text, At, At-append, get_index-At, slice-At}
use amarr.Ec.TagType
use amarr.Ec.TagType.{from_value-value}
use amarr.Ec.TagName
use amarr.Ec.Encoding.RoundTrip.{
  fits, header_bytes, header_bytes_pos, read_uint16-At, read_uint32-At, number_length-At,
}
use amarr.Ec.Tag.{Tag, Tags, Value, tag, nil, cons, count, has_any, type_of}
use amarr.Ec.Tag.Values.{parse_value}
use amarr.Ec.Tag.Values.RoundTrip.{IsValue, parse_value-encode_value}
use amarr.Ec.Tag.Codec.{
  header_size, name_and_flag, subtag_count_size, Parsed, ParsedTags, parse_subtags,
  parse_subtag_list, parse_body,
}
use amarr.Ec.Tag.Wire.{
  or_empty, value_bytes, content_size, contents_size, count_bytes, wire, wires, IsName, IsEncodable,
  name_and_flag-fits,
}

pub length-wire_pos : (utf : Bool) (t : Tag) → 1 ≤ length (wire utf t)
unfolding wire
length-wire_pos utf (tag name nv v subs) = omega (
  arith,
  header_bytes_pos 2 utf (name_and_flag name subs) (omega arith),
  length-append (header_bytes 2 utf (name_and_flag name subs)) (
      TagType.value (type_of v)
      ∷ (header_bytes 4 utf (length (value_bytes v) + contents_size subs)
          ++ (count_bytes utf subs ++ (wires utf subs ++ value_bytes v)))),
)

flag_of : (name : ℕ) (subs : Tags) → (name_and_flag name subs % 2 == 1) ≡ has_any subs
flag_of name nil = ground arith
flag_of name (cons t ts) = ground arith

name_of :
    (name : ℕ) (subs : Tags)
    → name_and_flag name subs < 2 ^ 16
    → name_and_flag name subs / 2 % 2 ^ 16 ≡ name
name_of name nil h = omega arith
name_of name (cons t ts) h = omega arith

from_value_known : (name : ℕ) → IsName name → TagName.from_value name ≡ name
unfolding TagName.from_value
from_value_known name h = rw h.0

-- `value_end_index`, for a value of `n` bytes from `s` on behind subtags of total size `t`.
value_end : (s n t : ℕ) → 1 ≤ s → pos s +ℤ (pos (n + t) -ℤ pos t -ℤ pos 1) ≡ pos (s + n - 1)
unfolding ◌+ℤ◌ ◌-ℤ◌
value_end s n t h = ground arith

value_stop : (s n : ℕ) → 1 ≤ s → pos (s + n - 1) +ℤ pos 1 ≡ pos (s + n)
unfolding ◌+ℤ◌
value_stop s n h = ground arith

parse_value-value_bytes :
    (parse_float : Text → Option Text) (v : Value)
    → IsValue parse_float v
    → parse_value parse_float (type_of v) (value_bytes v) ≡ ok v
parse_value-value_bytes parse_float v h =
    let (bs, e, p) = parse_value-encode_value parse_float v h in
    ap (λ r. parse_value parse_float (type_of v) (or_empty r)) e ∙ p

not_less : (n : ℕ) → (if ltb n n then false else true) ≡ true
not_less n = ground arith

module _ (utf : Bool) (payload : Bytes) (parse_one : ℤ → Result Parsed) where
  -- What the recursive calls do for the subtags, wherever they stand.
  abbrev pub ReadsSubtags : Tags → Type 0
  ReadsSubtags subs =
      (j : ℕ) (s : Bytes)
      → At payload j (wires utf subs ++ s)
      → parse_subtags parse_one (count subs) (pos j)
        ≡ ok (subs, contents_size subs, pos (j + length (wires utf subs)))

  parse_subtag_list-At :
      (subs : Tags) (i j : ℕ) (s : Bytes)
      → fits 2 utf (count subs) ≡ true
      → i + length (header_bytes 2 utf (count subs)) ≡ j
      → At payload i (header_bytes 2 utf (count subs) ++ (wires utf subs ++ s))
      → ReadsSubtags subs
      → parse_subtag_list parse_one payload utf (pos i)
        ≡ ok (subs, contents_size subs, pos (j + length (wires utf subs)))
  unfolding parse_subtag_list
  parse_subtag_list-At subs i j s f e a r =
      let header : Bytes = header_bytes 2 utf (count subs) in
      let rest : Bytes = wires utf subs ++ s in
      let (b, first, size) = number_length-At 2 utf payload i (count subs) rest (omega arith) f a in
      let next : pos i +ℤ pos (length header) ≡ pos j = pos-+ℤ i (length header) ∙ ap pos e in
      rw (
        read_uint16-At utf payload i (count subs) rest f a,
        first,
        size,
        next,
        r j s (At-append payload i j header rest e a),
        not_less (count subs),
      )

  -- Both branches on `has_subtags`.
  branch-At :
      (subs : Tags) (i j : ℕ) (s : Bytes)
      → fits 2 utf (count subs) ≡ true
      → i + length (count_bytes utf subs) ≡ j
      → At payload i (count_bytes utf subs ++ (wires utf subs ++ s))
      → ReadsSubtags subs
      → ◌≡◌ {A = Result ParsedTags}
          (if has_any subs
            then parse_subtag_list parse_one payload utf (pos i)
            else ok (nil, 0, pos i))
          (ok (subs, contents_size subs, pos (j + length (wires utf subs))))
  branch-At nil i j s f e a r =
      unfold contents_size wires in
      let e' : i ≡ j + 0 = omega arith in ap (λ k. ok (nil, 0, pos k)) e'
  branch-At (cons t ts) i j s f e a r = parse_subtag_list-At (cons t ts) i j s f e a r

-- The wire format in front of other bytes, bracketed to the right.
wire_front :
    (utf : Bool) (name nv : ℕ) (v : Value) (subs : Tags) (s : Bytes)
    → wire utf (tag name nv v subs) ++ s
      ≡ header_bytes 2 utf (name_and_flag name subs)
        ++ TagType.value (type_of v)
          ∷ (header_bytes 4 utf (length (value_bytes v) + contents_size subs)
              ++ (count_bytes utf subs ++ (wires utf subs ++ (value_bytes v ++ s))))
unfolding wire
wire_front utf name nv v subs s = simp append_assoc

length-wire :
    (utf : Bool) (name nv : ℕ) (v : Value) (subs : Tags)
    → length (wire utf (tag name nv v subs))
      ≡ length (header_bytes 2 utf (name_and_flag name subs))
        + (1
            + (length (header_bytes 4 utf (length (value_bytes v) + contents_size subs))
                + (length (count_bytes utf subs)
                    + (length (wires utf subs) + length (value_bytes v)))))
unfolding wire
length-wire utf name nv v subs = simp length-append (omega arith)

module _ (parse_float : Text → Option Text) (utf : Bool) (payload : Bytes)
    (parse_one : ℤ → Result Parsed) where
  -- The body of the parser on an encodable tag, given that it reads the subtags.
  pub parse_body-At :
      (name nv : ℕ) (v : Value) (subs : Tags) (i : ℕ) (s : Bytes)
      → IsEncodable parse_float utf (tag name nv v subs)
      → ReadsSubtags utf payload parse_one subs
      → At payload i (wire utf (tag name nv v subs) ++ s)
      → parse_body parse_float parse_one payload (pos i) utf
        ≡ ok (
          tag name nv v subs,
          content_size (tag name nv v subs) + header_size subs,
          pos (i + length (wire utf (tag name nv v subs)) - 1),
        )
  unfolding parse_body content_size
  parse_body-At name nv v subs i s e r a =
      let nf = name_and_flag name subs in
      let size = length (value_bytes v) + contents_size subs in
      let h1 : Bytes = header_bytes 2 utf nf in
      let ty = TagType.value (type_of v) in
      let h2 : Bytes = header_bytes 4 utf size in
      let cb : Bytes = count_bytes utf subs in
      let ws : Bytes = wires utf subs in
      let vb : Bytes = value_bytes v in
      let t3 : Bytes = cb ++ (ws ++ (vb ++ s)) in
      let t2 : Bytes = h2 ++ t3 in
      let t1 : Bytes = ty ∷ t2 in
      let a0 : At payload i (h1 ++ t1) = a ∙ wire_front utf name nv v subs s in
      let i1 = i + length h1 in
      let i2 = i1 + 1 in
      let i3 = i2 + length h2 in
      let i4 = i3 + length cb in
      let i5 = i4 + length ws in
      let a1 : At payload i1 t1 = At-append payload i i1 h1 t1 refl a0 in
      let a2 : At payload i2 t2 = At-append payload i1 i2 (ty ∷ []) t2 refl a1 in
      let a3 : At payload i3 t3 = At-append payload i2 i3 h2 t3 refl a2 in
      let a4 : At payload i4 (ws ++ (vb ++ s)) = At-append payload i3 i4 cb _ refl a3 in
      let a5 : At payload i5 (vb ++ s) = At-append payload i4 i5 ws _ refl a4 in
      let (f1, l1) = name_and_flag-fits utf name subs e.1 in
      let (b1, first1, size1) = number_length-At 2 utf payload i nf t1 (omega arith) f1 a0 in
      let (b2, first2, size2) = number_length-At 4 utf payload i2 size t3 (omega arith) e.3 a2 in
      let n1 : pos i +ℤ pos (length h1) ≡ pos i1 = pos-+ℤ i (length h1) in
      let n2 : pos i1 +ℤ pos 1 ≡ pos i2 = pos-+ℤ i1 1 in
      let n3 : pos i2 +ℤ pos (length h2) ≡ pos i3 = pos-+ℤ i2 (length h2) in
      let early : 1 ≤ i5 = omega arith in
      let flagged = if has_any subs then subtag_count_size else 0 in
      let sizes : contents_size subs + flagged + length vb + 7 ≡ size + header_size subs =
        omega arith in
      let ends : i5 + length vb - 1 ≡ i + length (wire utf (tag name nv v subs)) - 1 =
        omega (arith, length-wire utf name nv v subs) in
      rw
        (
          read_uint16-At utf payload i nf t1 f1 a0,
          first1,
          size1,
          n1,
          get_index-At payload i1 ty t2 a1,
          n2,
          read_uint32-At utf payload i2 size t3 e.3 a2,
          first2,
          size2,
          n3,
          name_of name subs l1,
          flag_of name subs,
          branch-At utf payload parse_one subs i3 i4 (vb ++ s) e.4 refl a3 r,
          value_end i5 (length vb) (contents_size subs) early,
          value_stop i5 (length vb) early,
          slice-At payload i5 (i5 + length vb) vb s refl a5,
          from_value-value (type_of v),
          parse_value-value_bytes parse_float v e.2,
          from_value_known name e.1,
        )
        (λ k. ok (tag name (sym e.0 k) v subs, sizes k, pos (ends k)))
