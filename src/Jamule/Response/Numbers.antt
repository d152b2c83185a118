-- ===== src/Jamule/Response/Numbers.antt =====
-- Numbers among the tags of a response, in any class that can be read at their width.
use amarr.Prelude.{ℕ, ◌≡◌, ◌⊎◌, inl, inr, refl, true, Option, none, some}
use amarr.Py.Result.{Result, ok}
use amarr.Ec.Tag.{Tags, Value, ubyte, ushort, uint, ulong}
use amarr.Ec.Tag.Find.{find_numeric, get_int, get_long, is_numeric, number_or}
use amarr.Ec.Tag.First.{first_value, first_of_type-first_value, first_of_type-absent}
use amarr.Jamule.Response.Reading.{required_number}

-- A number as a value, in a class that can be read as 32 bits, or as 64.
abbrev pub IsInt : ℕ → Value → Type 0
IsInt n v = (v ≡ ubyte n) ⊎ (v ≡ ushort n) ⊎ (v ≡ uint n)

abbrev pub IsLong : ℕ → Value → Type 0
IsLong n v = IsInt n v ⊎ (v ≡ ulong n)

-- A number that may be left out where it is 0.
abbrev pub OrZero : (ℕ → Value → Type 0) → ℕ → Option Value → Type 0
OrZero IsNumber n none = n ≡ 0
OrZero IsNumber n (some v) = IsNumber n v

abbrev pub Required : (ℕ → Value → Type 0) → ℕ → Option Value → Type 0
Required IsNumber n found = (v : Value) × (found ≡ some v) × IsNumber n v

pub required_number-Required :
    (read : Value → Result ℕ) (n k : ℕ) (tags : Tags)
    → ((v : Value) → IsInt k v → (is_numeric v ≡ true) × (read v ≡ ok k))
    → Required IsInt k (first_value n tags)
    → required_number read (find_numeric tags n) ≡ ok k
unfolding find_numeric
required_number-Required read n k tags reads (v, found, is) =
    let (t, first, e) = first_of_type-first_value n is_numeric v tags found (reads v is).0 in
    rw (first, e) (reads v is).1

pub number_or-OrZero :
    (IsNumber : ℕ → Value → Type 0) (read : Value → Result ℕ) (n k : ℕ) (tags : Tags)
    (found : Option Value)
    → ((v : Value) → IsNumber k v → (is_numeric v ≡ true) × (read v ≡ ok k))
    → first_value n tags ≡ found
    → OrZero IsNumber k found
    → number_or 0 read (find_numeric tags n) ≡ ok k
unfolding find_numeric
number_or-OrZero IsNumber read n k tags none reads absent zero =
    rw (first_of_type-absent n is_numeric tags absent, zero) refl
number_or-OrZero IsNumber read n k tags (some v) reads found is =
    let (t, first, e) = first_of_type-first_value n is_numeric v tags found (reads v is).0 in
    rw (first, e) (reads v is).1

pub get_int-IsInt : (k : ℕ) (v : Value) → IsInt k v → (is_numeric v ≡ true) × (get_int v ≡ ok k)
unfolding get_int
get_int-IsInt k v (inl e) = rw e (refl, refl)
get_int-IsInt k v (inr (inl e)) = rw e (refl, refl)
get_int-IsInt k v (inr (inr e)) = rw e (refl, refl)

pub get_long-IsLong : (k : ℕ) (v : Value) → IsLong k v → (is_numeric v ≡ true) × (get_long v ≡ ok k)
unfolding get_long
get_long-IsLong k v (inl (inl e)) = rw e (refl, refl)
get_long-IsLong k v (inl (inr (inl e))) = rw e (refl, refl)
get_long-IsLong k v (inl (inr (inr e))) = rw e (refl, refl)
get_long-IsLong k v (inr e) = rw e (refl, refl)
