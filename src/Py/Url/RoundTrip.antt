-- ===== src/Py/Url/RoundTrip.antt =====
-- A quoted text holds only unreserved characters and `%`, and `unquote` gives the text back.
use amarr.Prelude.{
  ℕ, zero, suc, ◌/◌, ◌%◌, ◌<◌, ◌≡◌, refl, ap, sym, Bool, true, false, ◌&&◌, ◌||◌, some, [], ◌∷◌,
  ◌++◌, arith, ltb, ◌==◌, length, append_assoc, append-nil,
}
use amarr.Py.Result.{ok, >>=-eq-ok, ok-injective}
use amarr.Py.Seq.{Bytes, Text}
use amarr.Py.Utf8.{
  decode, decode_rounds, decode_char, all_scalar, text_bytes, char_bytes, encode-eq-text_bytes,
  decode-text_bytes,
}
use amarr.Py.Utf8
use amarr.Py.Url.{
  is_unreserved, upper_hex, hex_value, quote, quote_bytes, unquote, unquote_from, unquote_to_bytes,
  decode_run, decode_replace,
}

unfoldable pub all_plain : Text → Bool
all_plain [] = true
all_plain (c ∷ cs) = (is_unreserved c || c == 37) && all_plain cs

unfoldable pub all_octets : Bytes → Bool
all_octets [] = true
all_octets (b ∷ bs) = ltb b 256 && all_octets bs

upper_hex-plain : (n : ℕ) → n < 16 → is_unreserved (upper_hex n) ≡ true
upper_hex-plain n h = ground arith

hex_value-upper_hex : (n : ℕ) → n < 16 → hex_value (upper_hex n) ≡ some n
hex_value-upper_hex n h = ground arith

pub quote_bytes-plain : (bs : Bytes) → all_octets bs ≡ true → all_plain (quote_bytes bs) ≡ true
unfolding quote_bytes all_plain all_octets
quote_bytes-plain [] h = refl
quote_bytes-plain (b ∷ bs) h =
    let small : b < 256 = ground arith in
    ground (
      arith,
      quote_bytes-plain bs,
      upper_hex-plain (b / 16) (omega arith),
      upper_hex-plain (b % 16) (omega arith),
    )

unquote_to_bytes-other :
    (a : ℕ) (cs : Text) → (a == 37) ≡ false → unquote_to_bytes (a ∷ cs) ≡ a ∷ unquote_to_bytes cs
unfolding unquote_to_bytes
unquote_to_bytes-other a [] h = refl
unquote_to_bytes-other a (c ∷ []) h = refl
unquote_to_bytes-other a (c ∷ d ∷ cs) h = ground arith

unquote_to_bytes-escape :
    (b : ℕ) (cs : Text)
    → b < 256
    → unquote_to_bytes (37 ∷ upper_hex (b / 16) ∷ upper_hex (b % 16) ∷ cs) ≡ b ∷ unquote_to_bytes cs
unfolding unquote_to_bytes
unquote_to_bytes-escape b cs h =
    ground (
      arith,
      hex_value-upper_hex (b / 16) (omega arith),
      hex_value-upper_hex (b % 16) (omega arith),
    )

unquote_to_bytes-quote_bytes :
    (bs : Bytes) → all_octets bs ≡ true → unquote_to_bytes (quote_bytes bs) ≡ bs
unfolding quote_bytes all_octets
unquote_to_bytes-quote_bytes [] h = unfold unquote_to_bytes in refl
unquote_to_bytes-quote_bytes (b ∷ bs) h =
    let small : b < 256 = ground arith in
    let rest : unquote_to_bytes (quote_bytes bs) ≡ bs =
      unquote_to_bytes-quote_bytes bs (ground arith) in
    let other = unquote_to_bytes-other b (quote_bytes bs) in
    let escape = unquote_to_bytes-escape b (quote_bytes bs) small in
    ground (arith, rest, other, escape)

decode_replace-decode_rounds :
    (n : ℕ) (bs : Bytes) (t : Text) → decode_rounds n bs ≡ ok t → decode_replace n bs ≡ t
unfolding decode_rounds decode_replace
decode_replace-decode_rounds n [] t e = ok-injective e
decode_replace-decode_rounds zero (a ∷ s) t e = cc
decode_replace-decode_rounds (suc n) (a ∷ s) t e =
    let (r, ec, e') = >>=-eq-ok (decode_char (a ∷ s)) _ e in
    let (cs, er, e'') = >>=-eq-ok (decode_rounds n r.1) _ e' in
    ground (arith, ec, decode_replace-decode_rounds n r.1 cs er, ok-injective e'')

unquote_from-plain :
    (run q : Text) → all_plain q ≡ true → unquote_from run q ≡ decode_run (run ++ q)
unfolding unquote_from all_plain
unquote_from-plain run [] h = ap decode_run (sym (append-nil run))
unquote_from-plain run (c ∷ cs) h =
    let ascii : ltb c 128 ≡ true = ground arith in
    let rest : all_plain cs ≡ true = ground arith in
    ground (
      arith,
      unquote_from-plain (run ++ c ∷ []) cs rest,
      ap decode_run (append_assoc run (c ∷ []) cs),
    )

char_bytes-octets :
    (c : ℕ) (bs : Bytes)
    → Utf8.is_scalar c ≡ true
    → all_octets bs ≡ true
    → all_octets (char_bytes c ++ bs) ≡ true
unfolding all_octets char_bytes
char_bytes-octets c bs h k = ground arith

pub text_bytes-octets : (t : Text) → all_scalar t ≡ true → all_octets (text_bytes t) ≡ true
unfolding text_bytes all_scalar
text_bytes-octets [] h = unfold all_octets in refl
text_bytes-octets (c ∷ cs) h =
    char_bytes-octets c (text_bytes cs) (ground arith) (text_bytes-octets cs (ground arith))

-- A text without surrogates is quoted, and `unquote` gives it back.
pub unquote-quote :
    (t : Text)
    → all_scalar t ≡ true
    → (q : Text) × (quote t ≡ ok q) × (unquote q ≡ t) × (all_plain q ≡ true)
unfolding quote unquote decode_run
unquote-quote t h =
    let octets = text_bytes-octets t h in
    let plain = quote_bytes-plain (text_bytes t) octets in
    let decoded : decode_replace (length (text_bytes t)) (text_bytes t) ≡ t =
      decode_replace-decode_rounds (length (text_bytes t)) (text_bytes t) t
        (unfold decode in decode-text_bytes t h) in
    (
      quote_bytes (text_bytes t),
      rw (encode-eq-text_bytes t h),
      rw
          (
            unquote_from-plain [] (quote_bytes (text_bytes t)) plain,
            unquote_to_bytes-quote_bytes (text_bytes t) octets,
          )
          decoded,
      plain,
    )
