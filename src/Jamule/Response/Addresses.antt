-- ===== src/Jamule/Response/Addresses.antt =====
-- The dotted addresses of jamule/response.py, read back.
use amarr.Prelude.{ℕ, true, ◌<◌, ◌%◌, ◌^◌, ◌≡◌, refl, ap, ◌∙◌, [], ◌∷◌, map, arith, length}
use amarr.Py.Seq.{Bytes, Text}
use amarr.Py.Struct.{be_bytes, of_be, length-be_bytes, of_be-be_bytes}
use amarr.Py.Decimal.{decimal, split, split-append, split-single, none_of}
use amarr.Py.Decimal.RoundTrip.{all_digits, decimal-digits}
use amarr.Jamule.Response.Connected.{dotted, int_to_ipv4}

digits-none_of : (t : Text) → all_digits t ≡ true → none_of 46 t ≡ true
unfolding none_of
digits-none_of [] h = refl
digits-none_of (c ∷ t) h = ground (arith, digits-none_of t)

decimal-none_of : (n : ℕ) → none_of 46 (decimal n) ≡ true
decimal-none_of n = digits-none_of (decimal n) (decimal-digits n)

split-dotted : (bs : Bytes) → 0 < length bs → split 46 (dotted bs) ≡ map decimal bs
split-dotted [] h = absurd (omega arith)
split-dotted (b ∷ []) h = split-single 46 (decimal b) (decimal-none_of b)
split-dotted (b ∷ c ∷ bs) h =
    split-append 46 (decimal b) (dotted (c ∷ bs)) (decimal-none_of b)
    ∙ ap (λ l. decimal b ∷ l) (split-dotted (c ∷ bs) (omega arith))

-- What the four parts of a dotted address stand for.
abbrev pub IsAddressOf : Text → ℕ → Type 0
IsAddressOf t value =
    (bs : Bytes) × (split 46 t ≡ map decimal bs) × (length bs ≡ 4) × (of_be 0 bs ≡ value)

-- An address below 2 ^ 32 is written as four decimal numbers with dots between them, the most
-- significant byte first.
pub int_to_ipv4-IsAddressOf : (value : ℕ) → value < 2 ^ 32 → IsAddressOf (int_to_ipv4 value) value
unfolding int_to_ipv4
int_to_ipv4-IsAddressOf value h =
    let bs = be_bytes 4 (value % 2 ^ 32) in
    let four = length-be_bytes 4 (value % 2 ^ 32) in
    (
      bs,
      split-dotted bs (omega (arith, four)),
      four,
      of_be-be_bytes 4 (value % 2 ^ 32) (omega arith) ∙ omega arith,
    )
