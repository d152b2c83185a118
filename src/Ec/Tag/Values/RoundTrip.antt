-- ===== src/Ec/Tag/Values/RoundTrip.antt =====
-- The value that a tag class encodes is parsed back by the class.
use amarr.Prelude.{
  ℕ, ◌^◌, ◌<◌, ◌≡◌, refl, ap, ◌∙◌, sym, Bool, true, false, ◌&&◌, ==_iff, Option, some, [], ◌∷◌,
  ◌++◌, append-nil, arith, ◌==◌, length, all_below, all_below_sound,
}
use native.Mathlib.Nat.{mod-eq_of_lt}
use amarr.Prelude.Int.{ℤ, pos}
use amarr.Py.Result.{Result, ok}
use amarr.Py.Seq.{Bytes, Text, get_index}
use amarr.Py.Struct.{be_bytes, length-be_bytes}
use amarr.Py.Utf8.{
  text_bytes, all_scalar, encode-eq-text_bytes, decode-text_bytes, text_bytes-append, char_bytes,
}
use amarr.Py.Decimal.{
  decimal, int, split, ends_without, rstrip-append_self, none_of, split-append, split-single,
}
use amarr.Ec.Encoding.{ushort_to_bytes, uint_to_bytes, ulong_to_bytes, read_uint16, read_uint32}
use amarr.Ec.Encoding.RoundTrip.{
  read_uint16-At, read_uint32-At, bytes_to_uint64-ulong_to_bytes, length-ulong_to_bytes,
}
use amarr.Ec.Tag.{
  Ipv4, Value, custom, ubyte, ushort, uint, ulong, uint128, string, double, ipv4, hash16, type_of,
}
use amarr.Ec.Tag.Values.{
  encode_value, encode_octets, encode_uint128, dotted, parse_value, parse_text, null_terminated,
  parse_ipv4,
}
use amarr.Ec.Tag.Values.Signed.{from_bytes_signed-encode_uint128, length-encode_uint128_pos}

-- The address is four numbers below 256 with dots between them.
abbrev pub IsAddress : Text → Type 0
IsAddress t = (a b c d : ℕ) × (a < 256) × (b < 256) × (c < 256) × (d < 256) × (t ≡ dotted a b c d)

-- A text that UTF-8 encodes and that `rstrip` leaves alone.
abbrev pub IsPlain : Text → Type 0
IsPlain t = (all_scalar t ≡ true) × (ends_without 0 t ≡ true)

all_scalar-append :
    (s t : Text) → all_scalar s ≡ true → all_scalar t ≡ true → all_scalar (s ++ t) ≡ true
unfolding all_scalar
all_scalar-append [] t h k = k
all_scalar-append (c ∷ s) t h k = ground (arith, all_scalar-append s t)

null_terminated-append : (bs : Bytes) → null_terminated (bs ++ 0 ∷ []) ≡ true
unfolding null_terminated
null_terminated-append [] = refl
null_terminated-append (b ∷ []) = refl
null_terminated-append (b ∷ c ∷ bs) = null_terminated-append (c ∷ bs)

parse_text-text_bytes : (t : Text) → IsPlain t → parse_text (text_bytes t ++ 0 ∷ []) ≡ ok t
unfolding parse_text
parse_text-text_bytes t (s, e) =
    let joined : text_bytes t ++ 0 ∷ [] ≡ text_bytes (t ++ 0 ∷ []) =
      sym (text_bytes-append t (0 ∷ []) ∙ ap (λ l. text_bytes t ++ l) zero_bytes) in
    rw (null_terminated-append (text_bytes t)) (
      rw (joined, decode-text_bytes (t ++ 0 ∷ []) (all_scalar-append t (0 ∷ []) s zero_scalar))
        (ap ok (rstrip-append_self 0 t e)))
  where
    zero_bytes : text_bytes (0 ∷ []) ≡ 0 ∷ []
    zero_bytes = unfold text_bytes char_bytes in refl

    zero_scalar : all_scalar (0 ∷ []) ≡ true
    zero_scalar = unfold all_scalar in refl

is_pos : ℕ → Result ℤ → Bool
is_pos n (ok (pos m)) = n == m
is_pos n _ = false

is_pos_sound : (n : ℕ) (r : Result ℤ) → is_pos n r ≡ true → r ≡ ok (pos n)
unfolding is_pos
is_pos_sound n (ok (pos m)) h = ap (λ k. ok (pos k)) (sym ((==_iff n m).0 h))
is_pos_sound n _ h = ground arith

octet_table : all_below 256 (λ n. is_pos n (int (decimal n)) && none_of b'.' (decimal n)) ≡ true
unfolding all_below is_pos int decimal none_of
octet_table = refl

octet : (n : ℕ) → n < 256 → (int (decimal n) ≡ ok (pos n)) × (none_of b'.' (decimal n) ≡ true)
octet n h =
    let both : (is_pos n (int (decimal n)) && none_of b'.' (decimal n)) ≡ true =
      all_below_sound 256 (λ n. is_pos n (int (decimal n)) && none_of b'.' (decimal n)) n
        octet_table h in
    (is_pos_sound n (int (decimal n)) (ground arith), ground arith)

split-dotted :
    (a b c d : ℕ)
    → a < 256
    → b < 256
    → c < 256
    → d < 256
    → split b'.' (dotted a b c d) ≡ decimal a ∷ decimal b ∷ decimal c ∷ decimal d ∷ []
split-dotted a b c d ha hb hc hd = rw (
  split-append b'.' (decimal a) _ (octet a ha).1,
  split-append b'.' (decimal b) _ (octet b hb).1,
  split-append b'.' (decimal c) _ (octet c hc).1,
  split-single b'.' (decimal d) (octet d hd).1,
)

encode_octets-dotted :
    (a b c d : ℕ)
    → a < 256
    → b < 256
    → c < 256
    → d < 256
    → encode_octets (split b'.' (dotted a b c d)) ≡ ok (a ∷ b ∷ c ∷ d ∷ [])
unfolding encode_octets
encode_octets-dotted a b c d ha hb hc hd = rw (
  split-dotted a b c d ha hb hc hd,
  (octet a ha).0,
  (octet b hb).0,
  (octet c hc).0,
  (octet d hd).0,
  mod-eq_of_lt ha,
  mod-eq_of_lt hb,
  mod-eq_of_lt hc,
  mod-eq_of_lt hd,
)

-- The class reads `v` back from the bytes that it writes.
abbrev Returns : (Text → Option Text) → Value → Type 0
Returns parse_float v =
    (bs : Bytes) × (encode_value v ≡ ok bs) × (parse_value parse_float (type_of v) bs ≡ ok v)

text_Returns :
    (parse_float : Text → Option Text) (t : Text) → IsPlain t → Returns parse_float (string t)
unfolding encode_value parse_value
text_Returns parse_float t h =
    (text_bytes t ++ 0 ∷ [], rw (encode-eq-text_bytes t h.0), rw (parse_text-text_bytes t h))

double_Returns :
    (parse_float : Text → Option Text) (t : Text)
    → IsPlain t
    → parse_float t ≡ some t
    → Returns parse_float (double t)
unfolding encode_value parse_value
double_Returns parse_float t h f =
    (text_bytes t ++ 0 ∷ [], rw (encode-eq-text_bytes t h.0), rw (parse_text-text_bytes t h, f))

ushort_Returns :
    (parse_float : Text → Option Text) (n : ℕ) → n < 2 ^ 16 → Returns parse_float (ushort n)
unfolding encode_value parse_value ushort_to_bytes
ushort_Returns parse_float n h =
    let read : read_uint16 (be_bytes 2 n) false (pos 0) ≡ ok n =
      read_uint16-At false (be_bytes 2 n) 0 n [] (ground arith) (sym (append-nil (be_bytes 2 n))) in
    (be_bytes 2 n, ap (λ m. ok (be_bytes 2 m)) (mod-eq_of_lt h), rw (length-be_bytes 2 n, read))

uint_Returns :
    (parse_float : Text → Option Text) (n : ℕ) → n < 2 ^ 32 → Returns parse_float (uint n)
unfolding encode_value parse_value uint_to_bytes
uint_Returns parse_float n h =
    let read : read_uint32 (be_bytes 4 n) false (pos 0) ≡ ok n =
      read_uint32-At false (be_bytes 4 n) 0 n [] (ground arith) (sym (append-nil (be_bytes 4 n))) in
    (be_bytes 4 n, ap (λ m. ok (be_bytes 4 m)) (mod-eq_of_lt h), rw (length-be_bytes 4 n, read))

ulong_Returns :
    (parse_float : Text → Option Text) (n : ℕ) → n < 2 ^ 64 → Returns parse_float (ulong n)
unfolding encode_value parse_value
ulong_Returns parse_float n h = (
  ulong_to_bytes n,
  refl,
  rw (length-ulong_to_bytes n, bytes_to_uint64-ulong_to_bytes n, mod-eq_of_lt h),
)

uint128_Returns : (parse_float : Text → Option Text) (z : ℤ) → Returns parse_float (uint128 z)
unfolding encode_value parse_value
uint128_Returns parse_float z = (
  encode_uint128 z,
  refl,
  ground (arith, length-encode_uint128_pos z, from_bytes_signed-encode_uint128 z),
)

ipv4_Returns :
    (parse_float : Text → Option Text) (ip : Ipv4)
    → IsAddress ip.address
    → ip.port < 2 ^ 16
    → Returns parse_float (ipv4 ip)
unfolding encode_value parse_value parse_ipv4 get_index ushort_to_bytes
ipv4_Returns parse_float ip (a, b, c, d, ha, hb, hc, hd, e) p =
    let octets : Bytes = a ∷ b ∷ c ∷ d ∷ [] in
    let bs : Bytes = octets ++ be_bytes 2 ip.port in
    let port : read_uint16 bs false (pos 4) ≡ ok ip.port =
      read_uint16-At false bs 4 ip.port [] (ground arith) (sym (append-nil (be_bytes 2 ip.port))) in
    let size : length bs ≡ 6 = omega (arith, length-be_bytes 2 ip.port) in
    let written : encode_octets (split b'.' ip.address) ≡ ok octets =
      ap (λ t. encode_octets (split b'.' t)) e ∙ encode_octets-dotted a b c d ha hb hc hd in
    (
      bs,
      rw (written, mod-eq_of_lt p),
      rw (size, port) (λ i. ok (ipv4 (record { address = sym e i; port = ip.port }))),
    )

module _ (parse_float : Text → Option Text) where
  -- A value that its class can write and read: integers in the range of the class, 16 bytes for a
  -- hash, plain texts, floats that `float` reads from their `repr`.
  abbrev pub IsValue : Value → Type 0
  IsValue (custom bs) = Unit {0}
  IsValue (ubyte n) = n < 256
  IsValue (ushort n) = n < 2 ^ 16
  IsValue (uint n) = n < 2 ^ 32
  IsValue (ulong n) = n < 2 ^ 64
  IsValue (uint128 z) = Unit {0}
  IsValue (string t) = IsPlain t
  IsValue (double t) = IsPlain t × (parse_float t ≡ some t)
  IsValue (ipv4 ip) = IsAddress ip.address × (ip.port < 2 ^ 16)
  IsValue (hash16 bs) = length bs ≡ 16

  -- A value in the range of its tag class (`IsValue`) is encoded, and the class parses it back.
  pub parse_value-encode_value :
      (v : Value)
      → IsValue v
      → (bs : Bytes) × (encode_value v ≡ ok bs) × (parse_value parse_float (type_of v) bs ≡ ok v)
  parse_value-encode_value (custom bs) h = unfold encode_value parse_value in (bs, refl, refl)
  parse_value-encode_value (ubyte n) h =
      unfold encode_value parse_value in (n ∷ [], ap (λ m. ok (m ∷ [])) (mod-eq_of_lt h), refl)
  parse_value-encode_value (ushort n) h = ushort_Returns parse_float n h
  parse_value-encode_value (uint n) h = uint_Returns parse_float n h
  parse_value-encode_value (ulong n) h = ulong_Returns parse_float n h
  parse_value-encode_value (uint128 z) h = uint128_Returns parse_float z
  parse_value-encode_value (string t) h = text_Returns parse_float t h
  parse_value-encode_value (double t) h = double_Returns parse_float t h.0 h.1
  parse_value-encode_value (ipv4 ip) h = ipv4_Returns parse_float ip h.0 h.1
  parse_value-encode_value (hash16 bs) h =
      unfold encode_value parse_value in (bs, refl, ground arith)
