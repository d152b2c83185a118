-- ===== src/Ec/Tag/Errors.antt =====
-- Tags that cannot be sent with UTF-8 numbers: no code point has the length.
use amarr.Prelude.{ℕ, ◌^◌, ◌≡◌, true, arith, ltb, if◌then◌else◌}
use native.Mathlib.Nat.{mod-eq_of_lt}
use amarr.Py.Result.{Exc, Result, ok, err, unicode_error, value_error, overflow_error}
use amarr.Py.Utf8.{is_surrogate, encode_char}
use amarr.Ec.Encoding.{uint_to_bytes_utf, number_to_utf8}
use amarr.Ec.Encoding.RoundTrip.{ushort_to_bytes_utf-fits}
use amarr.Ec.Tag.{Tag, tag, name}
use amarr.Ec.Tag.Codec.{compute_tag_length, name_and_flag, encode}
use amarr.Ec.Tag.Wire.{IsName, name_and_flag-fits}

abbrev pub length_error : ℕ → Result (Unit {0})
length_error n =
    if is_surrogate n
    then err unicode_error
    else if ltb n 0x110000
    then ok tt
    else if ltb n (2 ^ 31)
    then err value_error
    else err overflow_error

uint_to_bytes_utf-err :
    (n : ℕ) {e : Exc} → length_error n ≡ err e → uint_to_bytes_utf n true ≡ err e
unfolding uint_to_bytes_utf number_to_utf8 encode_char
uint_to_bytes_utf-err n h = ground arith

-- With UTF-8 numbers, a tag of a known name whose theoretical length is a surrogate code point
-- (55296 to 57343) or above 0x10FFFF is not sent: the encoder raises `UnicodeEncodeError` in the
-- first case, and in the second `ValueError` below 2 ^ 31 and `OverflowError` from there on.
pub encode-length_error :
    (t : Tag) (n : ℕ) {e : Exc}
    → IsName (name t)
    → compute_tag_length t ≡ ok n
    → length_error n ≡ err e
    → encode t true ≡ err e
unfolding encode name
encode-length_error (tag nm nv v subs) n k c h =
    let (f, l) = name_and_flag-fits true nm subs k in
    rw (
      mod-eq_of_lt l,
      ushort_to_bytes_utf-fits true (name_and_flag nm subs) f,
      c,
      uint_to_bytes_utf-err n h,
    )
