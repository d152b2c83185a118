-- ===== src/Py/Base32/RoundTrip.antt =====
-- `b32decode` reads whole groups back.
use amarr.Prelude.{
  ℕ, zero, suc, ◌+◌, ◌-◌, ◌*◌, ◌/◌, ◌%◌, ◌^◌, ◌<◌, ◌≡◌, refl, ap, ◌∙◌, true, false, [], ◌∷◌, ◌++◌,
  arith, ◌==◌, length,
}
use amarr.Py.Result.{ok}
use amarr.Py.Seq.{Bytes, Text}
use amarr.Py.Struct.{be_bytes, of_be}
use amarr.Py.Decimal.{rstrip}
use amarr.Py.Url.{is_unreserved}
use amarr.Py.Url.RoundTrip.{all_octets, all_plain}
use amarr.Py.Base32.{b32_char, b32_quanta, b32encode, b32_value, b32_number, b32_groups, b32decode}

b32_value-b32_char : (n : ℕ) → n < 32 → b32_value (b32_char n) ≡ ok n
b32_value-b32_char n h = ground arith

b32_number-cons :
    (acc n : ℕ) (cs : Text)
    → n < 32
    → b32_number acc (b32_char n ∷ cs) ≡ b32_number (acc * 32 + n) cs
unfolding b32_number
b32_number-cons acc n cs h = rw (b32_value-b32_char n h) refl

b32_number-quanta : (n : ℕ) → n < 2 ^ 40 → b32_number 0 (b32_quanta n) ≡ ok n
unfolding b32_quanta
b32_number-quanta n h =
    rw
      (
        b32_number-cons 0 (n / 2 ^ 35 % 32) _ (omega arith),
        b32_number-cons _ (n / 2 ^ 30 % 32) _ (omega arith),
        b32_number-cons _ (n / 2 ^ 25 % 32) _ (omega arith),
        b32_number-cons _ (n / 2 ^ 20 % 32) _ (omega arith),
        b32_number-cons _ (n / 2 ^ 15 % 32) _ (omega arith),
        b32_number-cons _ (n / 2 ^ 10 % 32) _ (omega arith),
        b32_number-cons _ (n / 2 ^ 5 % 32) _ (omega arith),
        b32_number-cons _ (n % 32) _ (omega arith),
      )
      (unfold b32_number in ap ok (omega arith))

b32_char-plain : (n : ℕ) → n < 32 → is_unreserved (b32_char n) ≡ true
b32_char-plain n h = ground arith

plain-cons : (n : ℕ) (cs : Text) → n < 32 → all_plain cs ≡ true → all_plain (b32_char n ∷ cs) ≡ true
unfolding all_plain
plain-cons n cs h k = rw (b32_char-plain n h) k

b32_quanta-plain : (n : ℕ) (cs : Text) → all_plain cs ≡ true → all_plain (b32_quanta n ++ cs) ≡ true
unfolding b32_quanta
b32_quanta-plain n cs k = plain-cons (n / 2 ^ 35 % 32) _ (omega arith) (
    plain-cons (n / 2 ^ 30 % 32) _ (omega arith) (
      plain-cons (n / 2 ^ 25 % 32) _ (omega arith) (
        plain-cons (n / 2 ^ 20 % 32) _ (omega arith) (
          plain-cons (n / 2 ^ 15 % 32) _ (omega arith) (
            plain-cons (n / 2 ^ 10 % 32) _ (omega arith) (
              plain-cons (n / 2 ^ 5 % 32) _ (omega arith)
                (plain-cons (n % 32) cs (omega arith) k)))))))

-- `=` does not stand in such a text.
plain-other :
    (c : ℕ) (cs : Text) → all_plain (c ∷ cs) ≡ true → ((c == 61) ≡ false) × (all_plain cs ≡ true)
unfolding all_plain
plain-other c cs h = (ground arith, ground arith)

rstrip-other :
    (c : ℕ) (cs : Text) → (c == 61) ≡ false → rstrip 61 cs ≡ cs → rstrip 61 (c ∷ cs) ≡ c ∷ cs
unfolding rstrip
rstrip-other c [] h e = rw (h) refl
rstrip-other c (d ∷ ds) h e = rw (e) refl

rstrip-plain : (t : Text) → all_plain t ≡ true → rstrip 61 t ≡ t
rstrip-plain [] h = unfold rstrip in refl
rstrip-plain (c ∷ cs) h =
    let (other, rest) = plain-other c cs h in rstrip-other c cs other (rstrip-plain cs rest)

-- The number of the last group.
abbrev last_number : ℕ → Text → ℕ → ℕ
last_number n t later = elim t [ [] ↦ n | _ ↦ later ]

b32_groups-quanta :
    (n : ℕ) (t : Text) (bs : Bytes) (later : ℕ)
    → n < 2 ^ 40
    → b32_groups t ≡ ok (bs, later)
    → b32_groups (b32_quanta n ++ t) ≡ ok (be_bytes 5 n ++ bs, last_number n t later)
unfolding b32_groups b32_quanta
b32_groups-quanta n t bs later h e = rw (b32_number-quanta n h, e) refl

five_bytes :
    (a b c d e : ℕ)
    → a < 256
    → b < 256
    → c < 256
    → d < 256
    → e < 256
    → (be_bytes 5 (of_be 0 (a ∷ b ∷ c ∷ d ∷ e ∷ [])) ≡ a ∷ b ∷ c ∷ d ∷ e ∷ [])
      × (of_be 0 (a ∷ b ∷ c ∷ d ∷ e ∷ []) < 2 ^ 40)
unfolding be_bytes of_be
five_bytes a b c d e ha hb hc hd he = (ground arith, omega arith)

first_five :
    (a b c d e : ℕ) (bs : Bytes)
    → all_octets (a ∷ b ∷ c ∷ d ∷ e ∷ bs) ≡ true
    → (a < 256) × (b < 256) × (c < 256) × (d < 256) × (e < 256) × (all_octets bs ≡ true)
unfolding all_octets
first_five a b c d e bs k =
    (ground arith, ground arith, ground arith, ground arith, ground arith, ground arith)

record Encoded (bs : Bytes) : Type 0 where
  pub last : ℕ
  pub groups : b32_groups (b32encode bs) ≡ ok (bs, last)
  pub plain : all_plain (b32encode bs) ≡ true
  pub whole : length (b32encode bs) % 8 ≡ 0

b32encode-Encoded : (n : ℕ) (bs : Bytes) → length bs ≡ 5 * n → all_octets bs ≡ true → Encoded bs
unfolding b32encode b32_quanta
b32encode-Encoded zero [] h k = record {
  last = 0;
  groups = unfold b32_groups in refl;
  plain = unfold all_plain in refl;
  whole = omega arith;
}
b32encode-Encoded zero (a ∷ bs) h k = absurd (omega arith)
b32encode-Encoded (suc n) [] h k = absurd (omega arith)
b32encode-Encoded (suc n) (a ∷ []) h k = absurd (omega arith)
b32encode-Encoded (suc n) (a ∷ b ∷ []) h k = absurd (omega arith)
b32encode-Encoded (suc n) (a ∷ b ∷ c ∷ []) h k = absurd (omega arith)
b32encode-Encoded (suc n) (a ∷ b ∷ c ∷ d ∷ []) h k = absurd (omega arith)
b32encode-Encoded (suc n) (a ∷ b ∷ c ∷ d ∷ e ∷ bs) h k =
    let (ha, hb, hc, hd, he, rest) = first_five a b c d e bs k in
    let (back, small) = five_bytes a b c d e ha hb hc hd he in
    let ih = b32encode-Encoded n bs (omega arith) rest in
    let number : ℕ = of_be 0 (a ∷ b ∷ c ∷ d ∷ e ∷ []) in
    record {
      last = last_number number (b32encode bs) ih.last;
      groups =
          b32_groups-quanta number (b32encode bs) bs ih.last small ih.groups
          ∙ ap (λ l. ok (l ++ bs, last_number number (b32encode bs) ih.last)) back;
      plain = b32_quanta-plain number (b32encode bs) ih.plain;
      whole = omega (arith, ih.whole);
    }

-- Bytes in whole groups of five come back.
pub b32decode-b32encode :
    (n : ℕ) (bs : Bytes)
    → length bs ≡ 5 * n
    → all_octets bs ≡ true
    → (b32decode (b32encode bs) ≡ ok bs) × (all_plain (b32encode bs) ≡ true)
unfolding b32decode
b32decode-b32encode n bs h k =
    let encoded = b32encode-Encoded n bs h k in
    let same = rstrip-plain (b32encode bs) encoded.plain in
    let none_cut : length (b32encode bs) - length (b32encode bs) ≡ 0 = omega arith in
    (rw (encoded.whole, same, encoded.groups, none_cut) refl, encoded.plain)
