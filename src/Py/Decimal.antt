-- ===== src/Py/Decimal.antt =====
-- `str(n)`, `int(text)`, `str.split` on one separator and `str.rstrip` of one character.
-- `int` is modelled for ASCII text: blanks around the number, a sign, digits with single
-- underscores between them.
pub mod RoundTrip
use amarr.Prelude.{
  ℕ, zero, suc, ◌+◌, ◌-◌, ◌*◌, ◌/◌, ◌%◌, ◌≡◌, refl, Bool, true, false, ◌&&◌, ◌||◌, List, [], ◌∷◌,
  ◌++◌, arith, ltb, leb, ◌==◌, if◌then◌else◌,
}
use amarr.Prelude.Int.{ℤ, pos, negsuc, ◌-ℤ◌}
use amarr.Py.Result.{Result, ok, err, value_error, ◌>>=◌}
use amarr.Py.Seq.{Text}

decimal_rounds : ℕ → ℕ → Text → Text
decimal_rounds zero n acc = acc
decimal_rounds (suc f) n acc =
    let more = decimal_rounds f (n / 10) ((48 + n % 10) ∷ acc) in
    if ltb n 10 then (48 + n) ∷ acc else more

-- `str(n)`: at most one round for each unit of `n`, and one more.
unfoldable pub decimal : ℕ → Text
unfolding decimal_rounds
decimal n = decimal_rounds (suc n) n []

is_blank : ℕ → Bool
is_blank c = c == 32 || (leb 9 c && leb c 13) || (leb 28 c && leb c 31)

skip_blanks : Text → Text
skip_blanks [] = []
skip_blanks (c ∷ cs) = elim (is_blank c) [ true ↦ skip_blanks cs | false ↦ c ∷ cs ]

only_blanks : Text → Bool
only_blanks [] = true
only_blanks (c ∷ cs) = is_blank c && only_blanks cs

-- The digits read so far stand for `acc`; `after_digit` says that the last character was one.
int_digits : Bool → ℕ → Text → Result ℕ
int_digits after_digit acc [] = if after_digit then ok acc else err value_error
int_digits after_digit acc (c ∷ cs) = elim (leb 48 c && leb c 57) [
  | true ↦ int_digits true (acc * 10 + (c - 48)) cs
  | false ↦ elim (after_digit && c == b'_') [
    | true ↦ int_digits false acc cs
    | false ↦ if after_digit && only_blanks (c ∷ cs) then ok acc else err value_error
  ]
]

int_signed : Text → Result ℤ
int_signed [] = err value_error
int_signed (c ∷ cs) =
    if c == b'-'
    then (do n ← int_digits false 0 cs; ok (pos 0 -ℤ pos n))
    else if c == b'+'
    then (do n ← int_digits false 0 cs; ok (pos n))
    else do n ← int_digits false 0 (c ∷ cs); ok (pos n)

-- `int(text)`
unfoldable pub int : Text → Result ℤ
unfolding int_digits int_signed skip_blanks only_blanks is_blank ◌-ℤ◌
int t = int_signed (skip_blanks t)

-- `str` of an integer
unfoldable pub int_text : ℤ → Text
int_text (pos n) = decimal n
int_text (negsuc n) = b'-' ∷ decimal (suc n)

abbrev pub cons_first : ℕ → List Text → List Text
cons_first c [] = (c ∷ []) ∷ []
cons_first c (t ∷ ts) = (c ∷ t) ∷ ts

-- `text.split(sep)` for a separator of one character
unfoldable pub split : ℕ → Text → List Text
split sep [] = [] ∷ []
split sep (c ∷ cs) = let rest = split sep cs in if c == sep then [] ∷ rest else cons_first c rest

-- `text.rstrip(c)` for one character
unfoldable pub rstrip : ℕ → Text → Text
rstrip c [] = []
rstrip c (x ∷ xs) = elim (rstrip c xs) [ [] ↦ if x == c then [] else x ∷ [] | y ∷ ys ↦ x ∷ y ∷ ys ]

-- The text is empty or ends in another character.
unfoldable pub ends_without : ℕ → Text → Bool
ends_without c [] = true
ends_without c (x ∷ []) = elim (x == c) [ true ↦ false | false ↦ true ]
ends_without c (x ∷ y ∷ ys) = ends_without c (y ∷ ys)

pub rstrip-append_self : (c : ℕ) (t : Text) → ends_without c t ≡ true → rstrip c (t ++ c ∷ []) ≡ t
unfolding rstrip ends_without
rstrip-append_self c [] h = ground arith
rstrip-append_self c (x ∷ []) h = ground arith
rstrip-append_self c (x ∷ y ∷ ys) h = ground (arith, rstrip-append_self c (y ∷ ys) h)

unfoldable pub none_of : ℕ → Text → Bool
none_of c [] = true
none_of c (x ∷ xs) = elim (x == c) [ true ↦ false | false ↦ none_of c xs ]

pub split-append :
    (sep : ℕ) (a t : Text) → none_of sep a ≡ true → split sep (a ++ sep ∷ t) ≡ a ∷ split sep t
unfolding split none_of
split-append sep [] t h = ground arith
split-append sep (x ∷ xs) t h = ground (arith, split-append sep xs t)

pub split-single : (sep : ℕ) (a : Text) → none_of sep a ≡ true → split sep a ≡ a ∷ []
unfolding split none_of
split-single sep [] h = refl
split-single sep (x ∷ xs) h = ground (arith, split-single sep xs)
