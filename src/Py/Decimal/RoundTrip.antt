-- ===== src/Py/Decimal/RoundTrip.antt =====
-- `int` reads the text of an integer back.
use amarr.Prelude.{
  ℕ, zero, suc, ◌+◌, ◌-◌, ◌*◌, ◌/◌, ◌%◌, ◌<◌, ◌≡◌, refl, ap, ◌∙◌, Bool, true, false, ◌&&◌, [], ◌∷◌,
  arith, ltb, leb, Bool-cases, inl, inr,
}
use amarr.Prelude.Int.{ℤ, pos, negsuc, ◌-ℤ◌}
use amarr.Py.Result.{ok}
use amarr.Py.Seq.{Text}
use amarr.Py.Decimal.{
  decimal, decimal_rounds, int, int_text, int_digits, int_signed, skip_blanks, is_blank,
}

-- Digits first, and then `t`.
abbrev pub all_digits : Text → Bool
all_digits [] = true
all_digits (c ∷ cs) = leb 48 c && leb c 57 && all_digits cs

int_digits-digit :
    (b : Bool) (acc c : ℕ) (cs : Text)
    → (leb 48 c && leb c 57) ≡ true
    → int_digits b acc (c ∷ cs) ≡ int_digits true (acc * 10 + (c - 48)) cs
unfolding int_digits
int_digits-digit b acc c cs h = ground arith

int_digits-decimal_rounds :
    (f n : ℕ) (b : Bool) (t : Text)
    → n < f
    → int_digits b 0 (decimal_rounds f n t) ≡ int_digits true n t
unfolding decimal_rounds
int_digits-decimal_rounds zero n b t h = absurd (omega arith)
int_digits-decimal_rounds (suc f) n b t h = elim (Bool-cases (ltb n 10)) [
  | inl small ↦
      rw (small, int_digits-digit b 0 (48 + n) t (ground arith))
        (ap (λ k. int_digits true k t) (omega arith))
  | inr large ↦
      rw
        (
          large,
          int_digits-decimal_rounds f (n / 10) b ((48 + n % 10) ∷ t) (ground arith),
          int_digits-digit true (n / 10) (48 + n % 10) t (ground arith),
        )
        (ap (λ k. int_digits true k t) (omega arith))
]

decimal_rounds-digits :
    (f n : ℕ) (t : Text) → all_digits t ≡ true → n < f → all_digits (decimal_rounds f n t) ≡ true
unfolding decimal_rounds
decimal_rounds-digits zero n t d h = absurd (omega arith)
decimal_rounds-digits (suc f) n t d h =
    ground (arith, decimal_rounds-digits f (n / 10) ((48 + n % 10) ∷ t))

pub decimal-digits : (n : ℕ) → all_digits (decimal n) ≡ true
unfolding decimal
decimal-digits n = decimal_rounds-digits (suc n) n [] refl (omega arith)

int_digits-decimal : (n : ℕ) (b : Bool) → int_digits b 0 (decimal n) ≡ ok n
unfolding decimal
int_digits-decimal n b =
    int_digits-decimal_rounds (suc n) n b [] (omega arith) ∙ unfold int_digits in refl

int_signed-digits :
    (t : Text) (n : ℕ)
    → all_digits t ≡ true
    → int_digits false 0 t ≡ ok n
    → int_signed (skip_blanks t) ≡ ok (pos n)
unfolding int_signed skip_blanks is_blank
int_signed-digits [] n d e = unfold int_digits in cc
int_signed-digits (c ∷ cs) n d e = ground (arith, e)

-- Every integer, with its sign.
pub int-int_text : (z : ℤ) → int (int_text z) ≡ ok z
unfolding int int_text ◌-ℤ◌
int-int_text (pos n) =
    int_signed-digits (decimal n) n (decimal-digits n) (int_digits-decimal n false)
int-int_text (negsuc n) = rw (int_digits-decimal (suc n) false) (ground arith)
