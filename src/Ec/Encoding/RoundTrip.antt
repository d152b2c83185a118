-- ===== src/Ec/Encoding/RoundTrip.antt =====
-- Header numbers are read back from where they were written, in both number formats.
use amarr.Prelude.{
  ℕ, ◌+◌, ◌%◌, ◌^◌, ◌<◌, ◌≤◌, ◌≡◌, refl, ap, ◌∙◌, sym, Bool, true, false, [], ◌∷◌, ◌++◌, arith, ltb,
  if◌then◌else◌, length, take_all,
}
use native.Mathlib.Nat.{mod-eq_of_lt}
use amarr.Prelude.Int.{pos, pos-+ℤ}
use amarr.Py.Result.{ok}
use amarr.Py.Seq.{Bytes, At, get_index, slice, get_index-At, slice-At}
use amarr.Py.Struct.{be_bytes, length-be_bytes, unpack_be-be_bytes}
use amarr.Py.Utf8.{char_bytes, is_scalar, encode_char_scalar, decode-char_bytes, length-char_bytes}
use amarr.Ec.Encoding.{
  number_to_utf8, read_utf8_number, number_length, read_uint32, read_uint16, ushort_to_bytes,
  uint_to_bytes, ulong_to_bytes, bytes_to_uint16, bytes_to_uint32, bytes_to_uint64,
  ushort_to_bytes_utf, uint_to_bytes_utf,
}
use amarr.Ec.Encoding.Length.{char_bytes-shape}

-- The value can be written as a header number of `size` bytes.
abbrev pub fits : ℕ → Bool → ℕ → Bool
fits size utf v = if utf then is_scalar v else ltb v (256 ^ size)

-- The bytes that stand for such a value.
abbrev pub header_bytes : ℕ → Bool → ℕ → Bytes
header_bytes size utf v = if utf then char_bytes v else be_bytes size v

read_utf8_number-At :
    (xs : Bytes) (i c : ℕ) (s : Bytes)
    → is_scalar c ≡ true
    → At xs i (char_bytes c ++ s)
    → read_utf8_number xs (pos i) ≡ ok c
unfolding read_utf8_number
read_utf8_number-At xs i c s h a =
    let (b, rest, e, l) = char_bytes-shape c h in
    let a' : At xs i (b ∷ rest ++ s) = a ∙ ap (λ t. t ++ s) e in
    let whole : slice xs (pos i) (pos (i + length (char_bytes c))) ≡ char_bytes c =
      slice-At xs i (i + length (char_bytes c)) (char_bytes c) s refl a in
    rw (get_index-At xs i b (rest ++ s) a', l, pos-+ℤ, whole, decode-char_bytes c h)

bytes_to_uint16-be_bytes : (v : ℕ) → v < 2 ^ 16 → bytes_to_uint16 (be_bytes 2 v) ≡ ok v
unfolding bytes_to_uint16
bytes_to_uint16-be_bytes v h =
    rw (take_all 2 (be_bytes 2 v) (omega (arith, length-be_bytes 2 v)))
      (unpack_be-be_bytes 2 v (omega arith))

bytes_to_uint32-be_bytes : (v : ℕ) → v < 2 ^ 32 → bytes_to_uint32 (be_bytes 4 v) ≡ ok v
unfolding bytes_to_uint32
bytes_to_uint32-be_bytes v h =
    rw (take_all 4 (be_bytes 4 v) (omega (arith, length-be_bytes 4 v)))
      (unpack_be-be_bytes 4 v (omega arith))

-- `bytes_to_uint64` reads back what `ulong_to_bytes` wrote, modulo 2 ^ 64.
pub bytes_to_uint64-ulong_to_bytes : (v : ℕ) → bytes_to_uint64 (ulong_to_bytes v) ≡ ok (v % 2 ^ 64)
unfolding bytes_to_uint64 ulong_to_bytes
bytes_to_uint64-ulong_to_bytes v =
    let low : ℕ = v % 2 ^ 64 in
    rw (take_all 8 (be_bytes 8 low) (omega (arith, length-be_bytes 8 low)))
      (unpack_be-be_bytes 8 low (omega arith))

-- A header uint16 that fits is read back, wherever it stands.
pub read_uint16-At :
    (utf : Bool) (xs : Bytes) (i v : ℕ) (s : Bytes)
    → fits 2 utf v ≡ true
    → At xs i (header_bytes 2 utf v ++ s)
    → read_uint16 xs utf (pos i) ≡ ok v
unfolding read_uint16
read_uint16-At true xs i v s h a = read_utf8_number-At xs i v s h a
read_uint16-At false xs i v s h a =
    let whole : slice xs (pos i) (pos (i + 2)) ≡ be_bytes 2 v =
      slice-At xs i (i + 2) (be_bytes 2 v) s (omega (arith, length-be_bytes 2 v)) a in
    rw (pos-+ℤ, whole) (bytes_to_uint16-be_bytes v (ground arith))

-- The same for a header uint32.
pub read_uint32-At :
    (utf : Bool) (xs : Bytes) (i v : ℕ) (s : Bytes)
    → fits 4 utf v ≡ true
    → At xs i (header_bytes 4 utf v ++ s)
    → read_uint32 xs utf (pos i) ≡ ok v
unfolding read_uint32
read_uint32-At true xs i v s h a = read_utf8_number-At xs i v s h a
read_uint32-At false xs i v s h a =
    let whole : slice xs (pos i) (pos (i + 4)) ≡ be_bytes 4 v =
      slice-At xs i (i + 4) (be_bytes 4 v) s (omega (arith, length-be_bytes 4 v)) a in
    rw (pos-+ℤ, whole) (bytes_to_uint32-be_bytes v (ground arith))

pub header_bytes_pos :
    (size : ℕ) (utf : Bool) (v : ℕ) → 1 ≤ size → 1 ≤ length (header_bytes size utf v)
header_bytes_pos size true v h = length-char_bytes v
header_bytes_pos size false v h = omega (arith, length-be_bytes size v)

be_bytes-shape : (n v : ℕ) → 1 ≤ n → (b : ℕ) × (s : Bytes) × (be_bytes n v ≡ b ∷ s)
be_bytes-shape n v h = nonempty (be_bytes n v) (omega (arith, length-be_bytes n v))
  where
    nonempty : (l : Bytes) → 1 ≤ length l → (b : ℕ) × (s : Bytes) × (l ≡ b ∷ s)
    nonempty [] g = absurd (omega arith)
    nonempty (b ∷ s) g = (b, s, refl)

-- The first byte of a header number gives the length that the number takes.
pub number_length-At :
    (size : ℕ) (utf : Bool) (xs : Bytes) (i v : ℕ) (s : Bytes)
    → 1 ≤ size
    → fits size utf v ≡ true
    → At xs i (header_bytes size utf v ++ s)
    → (b : ℕ) × (get_index xs (pos i) ≡ ok b)
      × (number_length b utf size ≡ ok (length (header_bytes size utf v)))
unfolding number_length
number_length-At size true xs i v s p h a =
    let (b, rest, e, l) = char_bytes-shape v h in
    (b, get_index-At xs i b (rest ++ s) (a ∙ ap (λ t. t ++ s) e), l)
number_length-At size false xs i v s p h a =
    let (b, rest, e) = be_bytes-shape size v p in
    (
      b,
      get_index-At xs i b (rest ++ s) (a ∙ ap (λ t. t ++ s) e),
      ap ok (sym (length-be_bytes size v)),
    )

pub ushort_to_bytes_utf-fits :
    (utf : Bool) (v : ℕ)
    → fits 2 utf v ≡ true
    → ushort_to_bytes_utf v utf ≡ ok (header_bytes 2 utf v)
unfolding ushort_to_bytes_utf number_to_utf8 ushort_to_bytes
ushort_to_bytes_utf-fits true v h = encode_char_scalar v h
ushort_to_bytes_utf-fits false v h =
    let small : v < 2 ^ 16 = ground arith in ap (λ n. ok (be_bytes 2 n)) (mod-eq_of_lt small)

pub uint_to_bytes_utf-fits :
    (utf : Bool) (v : ℕ) → fits 4 utf v ≡ true → uint_to_bytes_utf v utf ≡ ok (header_bytes 4 utf v)
unfolding uint_to_bytes_utf number_to_utf8 uint_to_bytes
uint_to_bytes_utf-fits true v h = encode_char_scalar v h
uint_to_bytes_utf-fits false v h =
    let small : v < 2 ^ 32 = ground arith in ap (λ n. ok (be_bytes 4 n)) (mod-eq_of_lt small)

pub length-ulong_to_bytes : (v : ℕ) → length (ulong_to_bytes v) ≡ 8
unfolding ulong_to_bytes
length-ulong_to_bytes v = length-be_bytes 8 (v % 2 ^ 64)
