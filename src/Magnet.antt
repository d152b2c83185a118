-- ===== src/Magnet.antt =====
-- magnet.py: magnet links, and the ed2k links that they stand for.
pub mod Parts
pub mod RoundTrip
pub mod Ed2k
use amarr.Prelude.{
  ℕ, zero, suc, ◌+◌, ◌-◌, Bool, true, false, not, ◌&&◌, ◌||◌, Option, none, some, List, [], ◌∷◌,
  ◌++◌, map, ◌==◌, if◌then◌else◌, take, length, drop,
}
use amarr.Prelude.Int.{ℤ}
use amarr.Py.Result.{Result, ok, err, stop_iteration, index_error, ◌>>=◌}
use amarr.Py.Seq.{Bytes, Text}
use amarr.Py.Decimal.{int_text, int, split, none_of}
use amarr.Py.Equality.{eq_text}
use amarr.Py.Url.{quote, unquote}
use amarr.Py.Base32.{b32encode, b32decode}
use amarr.Jamule.Hex.{hex, from_hex}

-- `AMARR_TRACKER`: http://amarr-reserved
abbrev pub amarr_tracker : Text
amarr_tracker =
    104 ∷ 116 ∷ 116 ∷ 112 ∷ 58 ∷ 47 ∷ 47 ∷ 97 ∷ 109 ∷ 97 ∷ 114 ∷ 114 ∷ 45 ∷ 114 ∷ 101 ∷ 115 ∷ 101
    ∷ 114 ∷ 118 ∷ 101 ∷ 100 ∷ []

pub record MagnetLink : Type 0 where
  pub hash : Bytes
  pub name : Text
  pub size : ℤ
  pub trackers : List Text

unfoldable pub amule_hex_hash : MagnetLink → Text
amule_hex_hash m = hex (take 16 m.hash)

abbrev pub ed2k_prefix : Text
ed2k_prefix = 101 ∷ 100 ∷ 50 ∷ 107 ∷ 58 ∷ 47 ∷ 47 ∷ 124 ∷ 102 ∷ 105 ∷ 108 ∷ 101 ∷ 124 ∷ []

-- ed2k://|file|name|size|hash|/
unfoldable pub to_ed2k_link : MagnetLink → Result Text
to_ed2k_link m = do
  name ← quote m.name
  ok (
      ed2k_prefix
      ++ (name ++ b'|' ∷ (int_text m.size ++ b'|' ∷ (amule_hex_hash m ++ b'|' ∷ b'/' ∷ []))))

unfoldable pub is_member : Text → List Text → Bool
is_member t [] = false
is_member t (x ∷ xs) = eq_text t x || is_member t xs

unfoldable pub is_amarr : MagnetLink → Bool
is_amarr m = is_member amarr_tracker m.trackers

unfoldable pub zeros : ℕ → Bytes
zeros zero = []
zeros (suc n) = 0 ∷ zeros n

-- `hash[:20].ljust(20, b"\x00")`
abbrev pub padded : Bytes → Bytes
padded hash = take 20 hash ++ zeros (20 - length (take 20 hash))

abbrev pub quote_each : List Text → Result (List Text)
quote_each [] = ok []
quote_each (t ∷ ts) = do q ← quote t; qs ← quote_each ts; ok (q ∷ qs)

-- `"&tr=".join(trackers)`
abbrev pub tracker_mark : Text
tracker_mark = 38 ∷ 116 ∷ 114 ∷ 61 ∷ []

unfoldable pub join_trackers : List Text → Text
join_trackers [] = []
join_trackers (t ∷ []) = t
join_trackers (t ∷ u ∷ ts) = t ++ (tracker_mark ++ join_trackers (u ∷ ts))

abbrev pub magnet_prefix : Text
magnet_prefix = 109 ∷ 97 ∷ 103 ∷ 110 ∷ 101 ∷ 116 ∷ 58 ∷ 63 ∷ []

abbrev pub btih_prefix : Text
btih_prefix = 117 ∷ 114 ∷ 110 ∷ 58 ∷ 98 ∷ 116 ∷ 105 ∷ 104 ∷ 58 ∷ []

-- What stands behind `magnet:?`
abbrev pub link_body : Text → Text → Text → Text → Text
link_body base32_hash name size trackers =
    (120 ∷ 116 ∷ 61 ∷ btih_prefix)
    ++ (base32_hash
        ++ ((38 ∷ 100 ∷ 110 ∷ 61 ∷ [])
            ++ (name ++ ((38 ∷ 120 ∷ 108 ∷ 61 ∷ []) ++ (size ++ (tracker_mark ++ trackers))))))

-- `__str__`
unfoldable pub to_text : MagnetLink → Result Text
to_text m = do
  trackers ← quote_each m.trackers
  name ← quote m.name
  ok (
      magnet_prefix
      ++ link_body (b32encode (padded m.hash)) name (int_text m.size) (join_trackers trackers))

unfoldable pub for_amarr : Bytes → Text → ℤ → MagnetLink
for_amarr hash name size = record {
  hash = hash;
  name = name;
  size = size;
  trackers = amarr_tracker ∷ [];
}

-- `text.split(sep, 1)[-1]`: what follows the first `sep`, or the whole text.
abbrev strip_prefix : Text → Text → Option Text
strip_prefix [] t = some t
strip_prefix (p ∷ ps) [] = none
strip_prefix (p ∷ ps) (c ∷ cs) = if p == c then strip_prefix ps cs else none

unfoldable pub after_first : Text → Text → Option Text
after_first sep [] = none
after_first sep (c ∷ cs) = elim (strip_prefix sep (c ∷ cs)) [
  | some rest ↦ some rest
  | none ↦ after_first sep cs
]

abbrev pub behind : Text → Text → Text
behind sep t = elim (after_first sep t) [ some rest ↦ rest | none ↦ t ]

-- `re.fullmatch(r".+=.+", part)`: an `=` with a character on both sides, and no line break.
unfoldable pub has_equals_inside : Text → Bool
has_equals_inside [] = false
has_equals_inside (c ∷ []) = false
has_equals_inside (c ∷ d ∷ cs) = c == b'=' || has_equals_inside (d ∷ cs)

unfoldable pub is_parameter : Text → Bool
is_parameter [] = false
is_parameter (c ∷ cs) = has_equals_inside cs && none_of 10 (c ∷ cs)

-- `part.split("=", 1)`
unfoldable pub key_and_value : Text → Text × Text
key_and_value [] = ([], [])
key_and_value (c ∷ cs) = elim (c == b'=') [
  | true ↦ ([], cs)
  | false ↦ let (key, value) = key_and_value cs in (c ∷ key, value)
]

abbrev pub Parameters : Type 0
Parameters = List (Text × Text)

unfoldable pub parameters : List Text → Parameters
parameters [] = []
parameters (part ∷ parts) =
    let rest = parameters parts in if is_parameter part then key_and_value part ∷ rest else rest

-- `next(v for k, v in params if k == key)`
unfoldable pub next_value : Text → Parameters → Result Text
next_value key [] = err stop_iteration
next_value key ((k, v) ∷ params) =
    let later = next_value key params in if eq_text k key then ok v else later

unfoldable pub all_values : Text → Parameters → List Text
all_values key [] = []
all_values key ((k, v) ∷ params) =
    let rest = all_values key params in if eq_text k key then v ∷ rest else rest

abbrev pub xt_key : Text
xt_key = 120 ∷ 116 ∷ []

abbrev pub dn_key : Text
dn_key = 100 ∷ 110 ∷ []

abbrev pub xl_key : Text
xl_key = 120 ∷ 108 ∷ []

abbrev pub tr_key : Text
tr_key = 116 ∷ 114 ∷ []

unfoldable pub link_of : Parameters → Result MagnetLink
link_of params = do
  xt ← next_value xt_key params
  hash ← b32decode (behind btih_prefix xt)
  name ← next_value dn_key params
  size_text ← next_value xl_key params
  size ← int size_text
  ok (record {
    hash = hash;
    name = unquote name;
    size = size;
    trackers = map unquote (all_values tr_key params);
  })

unfoldable pub from_string : Text → Result MagnetLink
from_string magnet = link_of (parameters (split b'&' (behind magnet_prefix magnet)))

-- `split("|/", 1)[0]`
unfoldable pub before_first : Text → Text → Text
before_first sep [] = []
before_first sep (c ∷ cs) = elim (strip_prefix sep (c ∷ cs)) [
  | some rest ↦ []
  | none ↦ c ∷ before_first sep cs
]

unfoldable pub ed2k_fields : List Text → Result MagnetLink
ed2k_fields (name ∷ size_text ∷ hash_text ∷ others) = do
  hash ← from_hex hash_text
  size ← int size_text
  ok (for_amarr hash (unquote name) size)
ed2k_fields _ = err index_error

unfoldable pub from_ed2k : Text → Result MagnetLink
from_ed2k ed2k =
    ed2k_fields (split b'|' (before_first (b'|' ∷ b'/' ∷ []) (behind ed2k_prefix ed2k)))
