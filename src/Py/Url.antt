-- ===== src/Py/Url.antt =====
-- `urllib.parse.quote(text, safe="")` and `urllib.parse.unquote(text)`.
pub mod RoundTrip
use amarr.Prelude.{
  ℕ, zero, suc, ◌+◌, ◌-◌, ◌*◌, ◌/◌, ◌%◌, ◌<◌, ◌≡◌, refl, ap, sym, Bool, true, false, not, ◌&&◌,
  ◌||◌, Option, none, some, List, [], ◌∷◌, ◌++◌, arith, ltb, leb, ◌==◌, if◌then◌else◌, length, drop,
}
use amarr.Py.Result.{Result, ok, err, ◌>>=◌}
use amarr.Py.Seq.{Bytes, Text}
use amarr.Py.Utf8

-- Letters, digits and `_.-~` stand for themselves.
abbrev pub is_unreserved : ℕ → Bool
is_unreserved c =
    (leb 48 c && leb c 57)
    || (leb 65 c && leb c 90)
    || (leb 97 c && leb c 122)
    || c == b'_'
    || c == b'.'
    || c == b'-'
    || c == b'~'

abbrev pub upper_hex : ℕ → ℕ
upper_hex n = if ltb n 10 then 48 + n else 55 + n

unfoldable pub quote_bytes : Bytes → Text
quote_bytes [] = []
quote_bytes (b ∷ bs) =
    let rest = quote_bytes bs in
    if is_unreserved b then b ∷ rest else 37 ∷ upper_hex (b / 16) ∷ upper_hex (b % 16) ∷ rest

-- A surrogate raises `UnicodeEncodeError`.
unfoldable pub quote : Text → Result Text
quote t = do bs ← Utf8.encode t; ok (quote_bytes bs)

-- `quote(text)`, where `/` stands for itself too
unfoldable pub quote_path_bytes : Bytes → Text
quote_path_bytes [] = []
quote_path_bytes (b ∷ bs) =
    let rest = quote_path_bytes bs in if b == 47 then b ∷ rest else quote_bytes (b ∷ []) ++ rest

unfoldable pub quote_path : Text → Result Text
quote_path t = do bs ← Utf8.encode t; ok (quote_path_bytes bs)

abbrev pub hex_value : ℕ → Option ℕ
hex_value c =
    if leb 48 c && leb c 57
    then some (c - 48)
    else if leb 65 c && leb c 70
    then some (c - 55)
    else if leb 97 c && leb c 102
    then some (c - 87)
    else none

abbrev escaped : ℕ → ℕ → Option ℕ
escaped c d = elim (hex_value c) [
  | none ↦ none
  | some hi ↦ elim (hex_value d) [ none ↦ none | some lo ↦ some (hi * 16 + lo) ]
]

-- `unquote_to_bytes`: a `%` without two hexadecimal digits stays.
unfoldable pub unquote_to_bytes : Text → Bytes
unquote_to_bytes [] = []
unquote_to_bytes (a ∷ []) = a ∷ []
unquote_to_bytes (a ∷ c ∷ []) = a ∷ c ∷ []
unquote_to_bytes (a ∷ c ∷ d ∷ cs) = elim (a == 37) [
  | false ↦ a ∷ unquote_to_bytes (c ∷ d ∷ cs)
  | true ↦ elim (escaped c d) [
    | none ↦ a ∷ unquote_to_bytes (c ∷ d ∷ cs)
    | some b ↦ b ∷ unquote_to_bytes cs
  ]
]

-- The second bytes that may follow a first byte of a sequence of three or four.
abbrev second_allowed : ℕ → ℕ → Bool
second_allowed a b =
    if a == 0xE0
    then leb 0xA0 b && ltb b 0xC0
    else if a == 0xED
    then leb 0x80 b && ltb b 0xA0
    else if a == 0xF0
    then leb 0x90 b && ltb b 0xC0
    else if a == 0xF4
    then leb 0x80 b && ltb b 0x90
    else leb 0x80 b && ltb b 0xC0

-- How many of the bytes after an invalid first byte are replaced with it.
invalid_more : ℕ → Bytes → ℕ
invalid_more a [] = 0
invalid_more a (b ∷ s) =
    if ltb a 0xE0 || leb 0xF5 a || not (second_allowed a b)
    then 0
    else if ltb a 0xF0
    then 1
    else third s
  where
    third : Bytes → ℕ
    third [] = 1
    third (c ∷ s) = if leb 0x80 c && ltb c 0xC0 then 2 else 1

-- `decode("utf-8", "replace")`, a character in each round.
unfoldable pub decode_replace : ℕ → Bytes → Text
unfolding invalid_more
decode_replace n [] = []
decode_replace zero (a ∷ s) = []
decode_replace (suc n) (a ∷ s) = elim (Utf8.decode_char (a ∷ s)) [
  | ok r ↦ r.0 ∷ decode_replace n r.1
  | err e ↦ 0xFFFD ∷ decode_replace n (drop (invalid_more a s) s)
]

unfoldable pub decode_run : Text → Text
decode_run run = let bs = unquote_to_bytes run in decode_replace (length bs) bs

-- The ASCII characters since the last other one are decoded together.
unfoldable pub unquote_from : Text → Text → Text
unquote_from run [] = decode_run run
unquote_from run (c ∷ cs) = elim (ltb c 128) [
  | true ↦ unquote_from (run ++ c ∷ []) cs
  | false ↦ decode_run run ++ c ∷ unquote_from [] cs
]

unfoldable pub unquote : Text → Text
unquote t = unquote_from [] t
