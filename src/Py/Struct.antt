-- ===== src/Py/Struct.antt =====
-- `struct.pack` and `struct.unpack` of unsigned integers, big-endian and little-endian.
use amarr.Prelude.{
  ℕ, zero, suc, ◌+◌, ◌*◌, ◌/◌, ◌%◌, ◌^◌, ◌<◌, ◌≡◌, refl, ap, [], ◌∷◌, ◌++◌, arith, ◌==◌,
  if◌then◌else◌, length, length-append, take, drop,
}
use native.Mathlib.Nat.{pow-suc}
use amarr.Py.Result.{Result, ok, err, struct_error}
use amarr.Py.Seq.{Bytes}

-- The `n` low bytes of `v`, most significant first.
unfoldable pub be_bytes : ℕ → ℕ → Bytes
be_bytes zero v = []
be_bytes (suc n) v = be_bytes n (v / 256) ++ (v % 256) ∷ []

-- The number that big-endian bytes stand for, after the digits `acc`.
unfoldable pub of_be : ℕ → Bytes → ℕ
of_be acc [] = acc
of_be acc (b ∷ bs) = of_be (acc * 256 + b) bs

-- The number that little-endian bytes stand for.
unfoldable pub of_le : Bytes → ℕ
of_le [] = 0
of_le (b ∷ bs) = b + 256 * of_le bs

unfoldable pub le_bytes : ℕ → ℕ → Bytes
le_bytes zero v = []
le_bytes (suc n) v = (v % 256) ∷ le_bytes n (v / 256)

-- `struct.unpack` of one integer of `size` bytes: the buffer has exactly that length.
unfoldable pub unpack_be : ℕ → Bytes → Result ℕ
unpack_be size bs = if length bs == size then ok (of_be 0 bs) else err struct_error

-- `struct.unpack_from` of one little-endian integer: the buffer may go on.
unfoldable pub unpack_le_from : ℕ → Bytes → ℕ → Result ℕ
unpack_le_from size buf off =
    let field = take size (drop off buf) in
    if length field == size then ok (of_le field) else err struct_error

pub length-be_bytes : (n v : ℕ) → length (be_bytes n v) ≡ n
unfolding be_bytes
length-be_bytes zero v = refl
length-be_bytes (suc n) v =
    omega
      (arith, length-be_bytes n (v / 256), length-append (be_bytes n (v / 256)) ((v % 256) ∷ []))

pub length-le_bytes : (n v : ℕ) → length (le_bytes n v) ≡ n
unfolding le_bytes
length-le_bytes zero v = refl
length-le_bytes (suc n) v = ap suc (length-le_bytes n (v / 256))

pub of_be-append : (acc b : ℕ) (bs : Bytes) → of_be acc (bs ++ b ∷ []) ≡ of_be acc bs * 256 + b
unfolding of_be
of_be-append acc b [] = refl
of_be-append acc b (c ∷ bs) = of_be-append (acc * 256 + c) b bs

pub of_be-be_bytes : (n v : ℕ) → v < 256 ^ n → of_be 0 (be_bytes n v) ≡ v
unfolding be_bytes of_be
of_be-be_bytes zero v h = omega (arith, h)
of_be-be_bytes (suc n) v h = omega (
  arith,
  of_be-append 0 (v % 256) (be_bytes n (v / 256)),
  of_be-be_bytes n (v / 256) (omega (arith, pow-suc 256 n)),
)

pub of_le-le_bytes : (n v : ℕ) → v < 256 ^ n → of_le (le_bytes n v) ≡ v
unfolding le_bytes of_le
of_le-le_bytes zero v h = omega (arith, h)
of_le-le_bytes (suc n) v h =
    omega (arith, of_le-le_bytes n (v / 256) (omega (arith, pow-suc 256 n)))

pub unpack_be-be_bytes : (n v : ℕ) → v < 256 ^ n → unpack_be n (be_bytes n v) ≡ ok v
unfolding unpack_be
unpack_be-be_bytes n v h = ground (arith, length-be_bytes n v, of_be-be_bytes n v h)
