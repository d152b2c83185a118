-- ===== src/Py/Utf8.antt =====
-- `str.encode("utf-8")` and the strict `bytes.decode("utf-8")`, on code points.
use amarr.Prelude.{
  ℕ, zero, suc, ◌+◌, ◌-◌, ◌*◌, ◌/◌, ◌%◌, ◌≤◌, ◌≡◌, refl, Bool, true, ◌&&◌, not, [], ◌∷◌, ◌++◌,
  append_assoc, append-nil, ◌∙◌, arith, ltb, leb, if◌then◌else◌, length, length-append,
}
use amarr.Py.Result.{Result, ok, err, unicode_error, value_error, overflow_error, ◌>>=◌}
use amarr.Py.Seq.{Bytes, Text}

abbrev pub is_surrogate : ℕ → Bool
is_surrogate c = leb 0xD800 c && ltb c 0xE000

-- A code point that UTF-8 encodes.
abbrev pub is_scalar : ℕ → Bool
is_scalar c = ltb c 0x110000 && not (is_surrogate c)

unfoldable pub char_bytes : ℕ → Bytes
char_bytes c =
    if ltb c 0x80
    then c ∷ []
    else if ltb c 0x800
    then (0xC0 + c / 64) ∷ (0x80 + c % 64) ∷ []
    else if ltb c 0x10000
    then (0xE0 + c / 4096) ∷ (0x80 + c / 64 % 64) ∷ (0x80 + c % 64) ∷ []
    else (0xF0 + c / 262144) ∷ (0x80 + c / 4096 % 64) ∷ (0x80 + c / 64 % 64) ∷ (0x80 + c % 64) ∷ []

-- `chr(c).encode("utf-8")`: `chr` refuses what is no code point, with another exception where `c` does
-- not fit in a C `int`, and `encode` the surrogates.
unfoldable pub encode_char : ℕ → Result Bytes
encode_char c =
    if ltb c 0x110000
    then (if is_surrogate c then err unicode_error else ok (char_bytes c))
    else if ltb c 0x80000000
    then err value_error
    else err overflow_error

unfoldable pub encode : Text → Result Bytes
encode [] = ok []
encode (c ∷ cs) = do b ← encode_char c; bs ← encode cs; ok (b ++ bs)

abbrev is_continuation : ℕ → Bool
is_continuation b = leb 0x80 b && ltb b 0xC0

decode_two : ℕ → Bytes → Result (ℕ × Bytes)
decode_two a (b ∷ s) =
    if is_continuation b then ok ((a - 0xC0) * 64 + (b - 0x80), s) else err unicode_error
decode_two a [] = err unicode_error

decode_three : ℕ → Bytes → Result (ℕ × Bytes)
decode_three a (b ∷ c ∷ s) =
    let v : ℕ = (a - 0xE0) * 4096 + (b - 0x80) * 64 + (c - 0x80) in
    if is_continuation b && is_continuation c && leb 0x800 v && not (is_surrogate v)
    then ok (v, s)
    else err unicode_error
decode_three a _ = err unicode_error

decode_four : ℕ → Bytes → Result (ℕ × Bytes)
decode_four a (b ∷ c ∷ d ∷ s) =
    let v : ℕ = (a - 0xF0) * 262144 + (b - 0x80) * 4096 + (c - 0x80) * 64 + (d - 0x80) in
    if is_continuation b
      && is_continuation c
      && is_continuation d
      && leb 0x10000 v
      && ltb v 0x110000
    then ok (v, s)
    else err unicode_error
decode_four a _ = err unicode_error

-- The first character of a UTF-8 text, and the bytes behind it.
unfoldable pub decode_char : Bytes → Result (ℕ × Bytes)
unfolding decode_two decode_three decode_four
decode_char [] = err unicode_error
decode_char (a ∷ s) =
    if ltb a 0x80
    then ok (a, s)
    else if ltb a 0xC2
    then err unicode_error
    else if ltb a 0xE0
    then decode_two a s
    else if ltb a 0xF0
    then decode_three a s
    else decode_four a s

-- One character in each round; the length of the input is enough rounds, since each takes a byte.
unfoldable pub decode_rounds : ℕ → Bytes → Result Text
decode_rounds n [] = ok []
decode_rounds zero (a ∷ s) = err unicode_error
decode_rounds (suc n) (a ∷ s) = do
  (c, rest) ← decode_char (a ∷ s)
  cs ← decode_rounds n rest
  ok (c ∷ cs)

unfoldable pub decode : Bytes → Result Text
unfolding decode_rounds
decode bs = decode_rounds (length bs) bs

pub decode_char-char_bytes :
    (c : ℕ) (s : Bytes) → is_scalar c ≡ true → decode_char (char_bytes c ++ s) ≡ ok (c, s)
unfolding decode_char char_bytes
decode_char-char_bytes c s h = ground arith

pub encode_char_scalar : (c : ℕ) → is_scalar c ≡ true → encode_char c ≡ ok (char_bytes c)
unfolding encode_char
encode_char_scalar c h = ground arith

unfoldable pub all_scalar : Text → Bool
all_scalar [] = true
all_scalar (c ∷ cs) = is_scalar c && all_scalar cs

-- The bytes of a text without surrogates.
unfoldable pub text_bytes : Text → Bytes
text_bytes [] = []
text_bytes (c ∷ cs) = char_bytes c ++ text_bytes cs

pub encode-eq-text_bytes : (t : Text) → all_scalar t ≡ true → encode t ≡ ok (text_bytes t)
unfolding encode all_scalar text_bytes
encode-eq-text_bytes [] h = refl
encode-eq-text_bytes (c ∷ cs) h = ground (arith, encode_char_scalar c, encode-eq-text_bytes cs)

decode_rounds_step :
    (n : ℕ) (bs : Bytes) (c : ℕ) (rest : Bytes)
    → decode_char bs ≡ ok (c, rest)
    → decode_rounds (suc n) bs ≡ (decode_rounds n rest >>= λ cs. ok (c ∷ cs))
unfolding decode_rounds decode_char
decode_rounds_step n [] c rest h = cc
decode_rounds_step n (a ∷ s) c rest h = rw h

decode_rounds-text_bytes :
    (n : ℕ) (t : Text) → length t ≤ n → all_scalar t ≡ true → decode_rounds n (text_bytes t) ≡ ok t
unfolding all_scalar text_bytes
decode_rounds-text_bytes zero [] h s = unfold decode_rounds in refl
decode_rounds-text_bytes (suc n) [] h s = unfold decode_rounds in refl
decode_rounds-text_bytes zero (c ∷ cs) h s = absurd (omega arith)
decode_rounds-text_bytes (suc n) (c ∷ cs) h s =
    let first : is_scalar c ≡ true = ground arith in
    let others : all_scalar cs ≡ true = ground arith in
    decode_rounds_step n (char_bytes c ++ text_bytes cs) c (text_bytes cs)
      (decode_char-char_bytes c (text_bytes cs) first)
    ∙ rw (decode_rounds-text_bytes n cs (omega arith) others)

pub length-char_bytes : (c : ℕ) → 1 ≤ length (char_bytes c)
unfolding char_bytes
length-char_bytes c = ground arith

length-le-text_bytes : (t : Text) → length t ≤ length (text_bytes t)
unfolding text_bytes
length-le-text_bytes [] = omega arith
length-le-text_bytes (c ∷ cs) = omega (
  arith,
  length-append (char_bytes c) (text_bytes cs),
  length-char_bytes c,
  length-le-text_bytes cs,
)

-- Decoding gives the text back.
pub decode-text_bytes : (t : Text) → all_scalar t ≡ true → decode (text_bytes t) ≡ ok t
unfolding decode
decode-text_bytes t s =
    decode_rounds-text_bytes (length (text_bytes t)) t (length-le-text_bytes t) s

pub decode-char_bytes : (c : ℕ) → is_scalar c ≡ true → decode (char_bytes c) ≡ ok (c ∷ [])
unfolding text_bytes all_scalar
decode-char_bytes c s =
    let whole : decode (char_bytes c ++ []) ≡ ok (c ∷ []) =
      decode-text_bytes (c ∷ []) (ground arith) in
    rw append-nil at whole

pub text_bytes-append : (s t : Text) → text_bytes (s ++ t) ≡ text_bytes s ++ text_bytes t
unfolding text_bytes
text_bytes-append [] t = refl
text_bytes-append (c ∷ cs) t = simp (text_bytes-append cs t, append_assoc)
