-- ===== src/Ec/Tag/Wire.antt =====
-- The wire format of the docstring of jamule/ec/tag.py, written down apart from the encoder:
-- [name and flag] [type] [length] [count, subtags] [value].
use amarr.Prelude.{
  ℕ, suc, ◌+◌, ◌*◌, ◌<◌, ◌^◌, ◌≡◌, ◌≢◌, refl, Bool, true, false, ◌&&◌, ◌||◌, Option, List, [], ◌∷◌,
  ◌++◌, arith, ltb, ◌==◌, if◌then◌else◌, length, elem,
}
use Prim.Native.Nat.{max}
use amarr.Py.Result.{Result, ok, err}
use amarr.Py.Seq.{Bytes, Text}
use amarr.Py.Utf8.{is_scalar}
use amarr.Ec.TagType
use amarr.Ec.TagName.{tag_names, ec_tag_unknown}
use amarr.Ec.Encoding.RoundTrip.{fits, header_bytes}
use amarr.Ec.Tag.{Tag, Tags, Value, tag, nil, cons, has_any, count, type_of, subtags}
use amarr.Ec.Tag.Values.{encode_value}
use amarr.Ec.Tag.Values.RoundTrip.{IsValue}
use amarr.Ec.Tag.Codec.{header_size, name_and_flag}

abbrev pub or_empty : Result Bytes → Bytes
or_empty (ok bs) = bs
or_empty (err e) = []

abbrev pub value_bytes : Value → Bytes
value_bytes v = or_empty (encode_value v)

-- Own value and subtags, these with headers of fixed size.
unfoldable mutual
  pub content_size : Tag → ℕ
  content_size (tag name name_value v subs) = length (value_bytes v) + contents_size subs

  pub contents_size : Tags → ℕ
  contents_size nil = 0
  contents_size (cons t ts) = content_size t + header_size (subtags t) + contents_size ts

abbrev pub count_bytes : Bool → Tags → Bytes
count_bytes utf subs = if has_any subs then header_bytes 2 utf (count subs) else []

unfoldable mutual
  pub wire : Bool → Tag → Bytes
  wire utf (tag name name_value v subs) =
      header_bytes 2 utf (name_and_flag name subs)
      ++ TagType.value (type_of v)
        ∷ (header_bytes 4 utf (length (value_bytes v) + contents_size subs)
            ++ (count_bytes utf subs ++ (wires utf subs ++ value_bytes v)))

  pub wires : Bool → Tags → Bytes
  wires utf nil = []
  wires utf (cons t ts) = wire utf t ++ wires utf ts

-- Nesting, with the tag itself.
unfoldable mutual
  pub depth : Tag → ℕ
  depth (tag name name_value v subs) = suc (depths subs)

  pub depths : Tags → ℕ
  depths nil = 0
  depths (cons t ts) = max (depth t) (depths ts)

-- A name of the enumeration, other than the one that stands for unknown names.
abbrev pub IsName : ℕ → Type 0
IsName name = (elem name tag_names ≡ true) × (name ≢ ec_tag_unknown)

module _ (parse_float : Text → Option Text) (utf : Bool) where
  -- Every name, value, length and count in the tag has a form on the wire.
  abbrev mutual
    pub IsEncodable : Tag → Type 0
    IsEncodable (tag name name_value v subs) =
        (name_value ≡ name)
        × IsName name
        × IsValue parse_float v
        × (fits 4 utf (length (value_bytes v) + contents_size subs) ≡ true)
        × (fits 2 utf (count subs) ≡ true)
        × (count subs < 2 ^ 16)
        × AreEncodable subs

    pub AreEncodable : Tags → Type 0
    AreEncodable nil = Unit {0}
    AreEncodable (cons t ts) = IsEncodable t × AreEncodable ts

every : (ℕ → Bool) → List ℕ → Bool
every p [] = true
every p (x ∷ xs) = p x && every p xs

every-elem :
    (p : ℕ → Bool) (a : ℕ) (xs : List ℕ) → every p xs ≡ true → elem a xs ≡ true → p a ≡ true
unfolding every elem
every-elem p a [] h m = cc
every-elem p a (x ∷ xs) h m = ground (arith, every-elem p a xs)

abbrev fits_as_name : ℕ → Bool
fits_as_name n =
    n == ec_tag_unknown || (ltb n 0x8000 && (is_scalar (2 * n + 0) && is_scalar (2 * n + 1)))

names_table : every fits_as_name tag_names ≡ true
unfolding every
names_table = refl

-- A name with its flag fits in a header number of both formats.
pub name_and_flag-fits :
    (utf : Bool) (name : ℕ) (subs : Tags)
    → IsName name
    → (fits 2 utf (name_and_flag name subs) ≡ true) × (name_and_flag name subs < 2 ^ 16)
name_and_flag-fits utf name subs (m, k) =
    let h : fits_as_name name ≡ true = every-elem fits_as_name name tag_names names_table m in
    split utf (has_any subs) h
  where
    split :
        (u b : Bool)
        → fits_as_name name ≡ true
        → (fits 2 u (2 * name + (if b then 1 else 0)) ≡ true)
          × (2 * name + (if b then 1 else 0) < 2 ^ 16)
    split true true h = (ground arith, ground arith)
    split true false h = (ground arith, ground arith)
    split false true h = (ground arith, ground arith)
    split false false h = (ground arith, ground arith)
