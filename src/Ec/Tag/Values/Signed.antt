-- ===== src/Ec/Tag/Values/Signed.antt =====
-- `UInt128Tag` values: the minimal two's-complement bytes, read back.
use amarr.Prelude.{ℕ, zero, suc, ◌+◌, ◌-◌, ◌*◌, ◌/◌, ◌^◌, ◌≤◌, ◌<◌, ◌≡◌, refl, arith, length}
use native.Mathlib.Nat.{pow-suc, pow-le-pow_right}
use native.Mathlib.Numerals.{towards_suc}
use amarr.Prelude.Int.{ℤ, pos, negsuc}
use amarr.Py.Struct.{of_be, length-be_bytes, of_be-be_bytes}
use amarr.Ec.Tag.Values.{bits, bit_length, to_bytes_signed, from_bytes_signed, encode_uint128}

bits-bound : (f n : ℕ) → n ≤ f → n < 2 ^ bits f n
unfolding bits
bits-bound zero zero h = omega arith
bits-bound zero (suc n) h = absurd (omega arith)
bits-bound (suc f) zero h = omega arith
bits-bound (suc f) (suc n) h =
    ground (arith, bits-bound f (suc n / 2) (omega arith), pow-suc 2 (bits f (suc n / 2)))

bit_length-bound : (n : ℕ) → n < 2 ^ bit_length n
unfolding bit_length
bit_length-bound n = bits-bound n n (omega arith)

pow_256 : (l : ℕ) → 256 ^ l ≡ 2 ^ (8 * l)
pow_256 zero = refl
pow_256 (suc l) =
    let e : 8 * suc l ≡ 8 * l + 8 = omega arith in
    rw e (simp towards_suc (omega (arith, pow_256 l, pow-suc 256 l, double8)))
  where
    double8 : 2 ^ (8 * l + 8) ≡ 256 * 2 ^ (8 * l)
    double8 = simp (towards_suc, pow-suc) (omega arith)

-- The length that `encode_uint128` chooses leaves room for the sign bit.
sign_room : (n : ℕ) → 2 * n < 256 ^ ((bit_length n + 8) / 8)
sign_room n =
    let l : ℕ = (bit_length n + 8) / 8 in
    omega (
      arith,
      bit_length-bound n,
      pow_256 l,
      pow-suc 2 (bit_length n),
      pow-le-pow_right {n = 2} (omega arith) {i = suc (bit_length n)} {j = 8 * l} (omega arith),
    )

from_to_pos : (l n : ℕ) → 2 * n < 256 ^ l → from_bytes_signed (to_bytes_signed l (pos n)) ≡ pos n
unfolding from_bytes_signed to_bytes_signed
from_to_pos l n h =
    let small : n < 256 ^ l = omega arith in
    rw (length-be_bytes, of_be-be_bytes l n small) (ground arith)

from_to_negsuc :
    (l n : ℕ) → 2 * suc n < 256 ^ l → from_bytes_signed (to_bytes_signed l (negsuc n)) ≡ negsuc n
unfolding from_bytes_signed to_bytes_signed
from_to_negsuc l n h =
    let small : 256 ^ l - suc n < 256 ^ l = omega arith in
    rw (length-be_bytes, of_be-be_bytes l (256 ^ l - suc n) small) (ground arith)

-- Reading the encoded bytes gives the integer back, whatever its size and sign.
pub from_bytes_signed-encode_uint128 : (z : ℤ) → from_bytes_signed (encode_uint128 z) ≡ z
unfolding encode_uint128
from_bytes_signed-encode_uint128 (pos zero) = unfold from_bytes_signed of_be in refl
from_bytes_signed-encode_uint128 (pos (suc n)) = from_to_pos _ (suc n) (sign_room (suc n))
from_bytes_signed-encode_uint128 (negsuc n) = from_to_negsuc _ n (sign_room (suc n))

pub length-encode_uint128_pos : (z : ℤ) → 1 ≤ length (encode_uint128 z)
unfolding encode_uint128 to_bytes_signed
length-encode_uint128_pos (pos zero) = omega arith
length-encode_uint128_pos (pos (suc n)) =
    omega (arith, length-be_bytes ((bit_length (suc n) + 8) / 8) (suc n))
length-encode_uint128_pos (negsuc n) =
    let l : ℕ = (bit_length (suc n) + 8) / 8 in omega (arith, length-be_bytes l (256 ^ l - suc n))
