-- ===== src/Ec/Tag/First.antt =====
-- What the accessors of jamule/ec/tag.py return, by the first tag of the name alone.
use amarr.Prelude.{
  ℕ, ◌≡◌, refl, Bool, true, Option, none, some, Bool-cases, inl, inr, ◌==◌, arith, if◌then◌else◌,
}
use amarr.Py.Seq.{Bytes, Text}
use amarr.Ec.Tag.{Tag, Tags, Value, nil, cons, name, value, ubyte, string, hash16}
use amarr.Ec.Tag.Find.{
  first_of_type, is_ubyte, is_string, is_hash16, find_byte, find_string, find_hash16, byte_value,
  string_value, hash_value,
}

-- The value of the first tag of a name.
abbrev pub first_value : ℕ → Tags → Option Value
first_value n nil = none
first_value n (cons t ts) =
    let later = first_value n ts in if name t == n then some (value t) else later

-- The first tag of the name is found when its value has the class.
pub first_of_type-first_value :
    (n : ℕ) (cls : Value → Bool) (v : Value) (tags : Tags)
    → first_value n tags ≡ some v
    → cls v ≡ true
    → (t : Tag) × (first_of_type tags n cls ≡ some t) × (value t ≡ v)
unfolding first_of_type
first_of_type-first_value n cls v nil found is = cc
first_of_type-first_value n cls v (cons t ts) found is = elim (Bool-cases (name t == n)) [
  | inl named ↦ let e : value t ≡ v = ground (arith, named, found) in (t, rw (named, e, is) refl, e)
  | inr other ↦
      let later : first_value n ts ≡ some v = ground (arith, other, found) in
      let (u, first, e) = first_of_type-first_value n cls v ts later is in (u, rw other first, e)
]

pub first_of_type-absent :
    (n : ℕ) (cls : Value → Bool) (tags : Tags)
    → first_value n tags ≡ none
    → first_of_type tags n cls ≡ none
unfolding first_of_type
first_of_type-absent n cls nil absent = refl
first_of_type-absent n cls (cons t ts) absent = ground (arith, first_of_type-absent n cls ts)

pub string_value-first_value :
    (n : ℕ) (s : Text) (tags : Tags)
    → first_value n tags ≡ some (string s)
    → string_value tags n ≡ some s
unfolding string_value find_string
string_value-first_value n s tags found =
    let (t, first, e) = first_of_type-first_value n is_string (string s) tags found refl in
    rw (first, e) refl

pub hash_value-first_value :
    (n : ℕ) (h : Bytes) (tags : Tags)
    → first_value n tags ≡ some (hash16 h)
    → hash_value tags n ≡ some h
unfolding hash_value find_hash16
hash_value-first_value n h tags found =
    let (t, first, e) = first_of_type-first_value n is_hash16 (hash16 h) tags found refl in
    rw (first, e) refl

pub byte_value-first_value :
    (n k : ℕ) (tags : Tags) → first_value n tags ≡ some (ubyte k) → byte_value tags n ≡ some k
unfolding byte_value find_byte
byte_value-first_value n k tags found =
    let (t, first, e) = first_of_type-first_value n is_ubyte (ubyte k) tags found refl in
    rw (first, e) refl
