-- ===== src/Jamule/Response/Reading.antt =====
-- How jamule/response.py reads the tags of a response: `find_x(...)` used without a test for `None`
-- raises `AttributeError` where there is no tag.
use amarr.Prelude.{ℕ, true, false, Option, none, some, ◌==◌}
use amarr.Py.Result.{Result, ok, err, attribute_error}
use amarr.Ec.Tag.{Tag, Tags, Value, nil, cons, name, value}
use amarr.Ec.Tag.Find.{find_numeric, get_long, number_or, optional_number}

-- `found.get_value()` where `found` may be `None`
abbrev pub required {ℓ} : {A : Type ℓ} → Option A → Result A
required none = err attribute_error
required (some a) = ok a

-- `found.get_int()` and `found.get_long()` where `found` may be `None`
abbrev pub required_number : (Value → Result ℕ) → Option Tag → Result ℕ
required_number get none = err attribute_error
required_number get (some t) = get (value t)

-- `next((t for t in tags if t.name == n), None)`
unfoldable pub first_named : Tags → ℕ → Option Tag
first_named nil n = none
first_named (cons t ts) n = elim (name t == n) [ true ↦ some t | false ↦ first_named ts n ]

-- `_num_or_zero` and `opt_num`
unfoldable pub num_or_zero : Tags → ℕ → Result ℕ
num_or_zero tags n = number_or 0 get_long (find_numeric tags n)

unfoldable pub opt_num : Tags → ℕ → Result (Option ℕ)
opt_num tags n = optional_number get_long (find_numeric tags n)
