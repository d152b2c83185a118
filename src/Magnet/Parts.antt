-- ===== src/Magnet/Parts.antt =====
-- The parameters of a link: what its parts are, and what is looked up in them.
use amarr.Prelude.{
  ℕ, suc, ◌<◌, ◌≡◌, refl, ap, ◌∙◌, Bool, true, false, ◌&&◌, List, [], ◌∷◌, ◌++◌, map, arith, leb,
  ◌==◌,
}
use amarr.Prelude.Int.{ℤ, pos, negsuc}
use amarr.Py.Seq.{Text}
use amarr.Py.Decimal.{int_text, decimal, split, none_of, split-append, split-single}
use amarr.Py.Decimal.RoundTrip.{all_digits, decimal-digits}
use amarr.Py.Equality.{eq_text}
use amarr.Py.Url.RoundTrip.{all_plain}
use amarr.Magnet.{
  is_parameter, has_equals_inside, key_and_value, parameters, all_values, tr_key, join_trackers,
}

pub plain-none_of : (c : ℕ) (t : Text) → c < 37 → all_plain t ≡ true → none_of c t ≡ true
unfolding all_plain none_of
plain-none_of c [] h p = refl
plain-none_of c (x ∷ xs) h p = ground (arith, plain-none_of c xs h)

pub plain-no_ampersand : (t : Text) → all_plain t ≡ true → none_of 38 t ≡ true
unfolding all_plain none_of
plain-no_ampersand [] p = refl
plain-no_ampersand (x ∷ xs) p = ground (arith, plain-no_ampersand xs)

pub digits-plain : (t : Text) → all_digits t ≡ true → all_plain t ≡ true
unfolding all_plain
digits-plain [] d = refl
digits-plain (c ∷ cs) d = ground (arith, digits-plain cs)

pub int_text-plain : (z : ℤ) → all_plain (int_text z) ≡ true
unfolding int_text all_plain
int_text-plain (pos n) = digits-plain (decimal n) (decimal-digits n)
int_text-plain (negsuc n) = digits-plain (decimal (suc n)) (decimal-digits (suc n))

-- A value that makes a parameter: not empty, and without `&` and line breaks.
unfoldable pub is_value : Text → Bool
is_value [] = false
is_value (c ∷ cs) = none_of 38 (c ∷ cs) && none_of 10 (c ∷ cs)

value-none_of : (v : Text) → is_value v ≡ true → (none_of 38 v ≡ true) × (none_of 10 v ≡ true)
unfolding is_value
value-none_of [] h = cc
value-none_of (c ∷ cs) h = (ground arith, ground arith)

pub plain-is_value : (c : ℕ) (cs : Text) → all_plain (c ∷ cs) ≡ true → is_value (c ∷ cs) ≡ true
unfolding is_value
plain-is_value c cs p =
    rw (plain-no_ampersand (c ∷ cs) p, plain-none_of 10 (c ∷ cs) (omega arith) p) refl

abbrev pub is_letter : ℕ → Bool
is_letter c = leb 97 c && leb c 122

-- The part of a key of two letters.
parameter :
    (k l : ℕ) (v : Text)
    → is_letter k ≡ true
    → is_letter l ≡ true
    → is_value v ≡ true
    → (is_parameter (k ∷ l ∷ 61 ∷ v) ≡ true) × (key_and_value (k ∷ l ∷ 61 ∷ v) ≡ (k ∷ l ∷ [], v))
unfolding is_parameter has_equals_inside key_and_value none_of
parameter k l [] a b h = unfold is_value in cc
parameter k l (x ∷ xs) a b h =
    let (_, no_break) = value-none_of (x ∷ xs) h in
    let k_other : (k == 61) ≡ false = ground arith in
    let l_other : (l == 61) ≡ false = ground arith in
    (ground (arith, a, b, no_break), ground (arith, k_other, l_other))

part-no_ampersand :
    (k l : ℕ) (v : Text)
    → is_letter k ≡ true
    → is_letter l ≡ true
    → is_value v ≡ true
    → none_of 38 (k ∷ l ∷ 61 ∷ v) ≡ true
unfolding none_of
part-no_ampersand k l v a b h = ground (arith, a, b, (value-none_of v h).0)

parameters-cons :
    (k l : ℕ) (v : Text) (parts : List Text)
    → is_letter k ≡ true
    → is_letter l ≡ true
    → is_value v ≡ true
    → parameters ((k ∷ l ∷ 61 ∷ v) ∷ parts) ≡ (k ∷ l ∷ [], v) ∷ parameters parts
unfolding parameters
parameters-cons k l v parts a b h =
    let (matched, pair) = parameter k l v a b h in rw (matched, pair) refl

-- The first part of a body, and a last part.
pub first_part :
    (k l : ℕ) (v t : Text)
    → is_letter k ≡ true
    → is_letter l ≡ true
    → is_value v ≡ true
    → parameters (split 38 ((k ∷ l ∷ 61 ∷ v) ++ 38 ∷ t)) ≡ (k ∷ l ∷ [], v) ∷ parameters (split 38 t)
first_part k l v t a b h =
    ap parameters (split-append 38 (k ∷ l ∷ 61 ∷ v) t (part-no_ampersand k l v a b h))
    ∙ parameters-cons k l v (split 38 t) a b h

last_part :
    (k l : ℕ) (v : Text)
    → is_letter k ≡ true
    → is_letter l ≡ true
    → is_value v ≡ true
    → parameters (split 38 (k ∷ l ∷ 61 ∷ v)) ≡ (k ∷ l ∷ [], v) ∷ []
unfolding parameters
last_part k l v a b h =
    ap parameters (split-single 38 (k ∷ l ∷ 61 ∷ v) (part-no_ampersand k l v a b h))
    ∙ parameters-cons k l v [] a b h

unfoldable pub all_values_of : List Text → Bool
all_values_of [] = true
all_values_of (v ∷ vs) = is_value v && all_values_of vs

abbrev pub tracker_parameter : Text → Text × Text
tracker_parameter q = (tr_key, q)

-- The trackers are the last parameters; where there are none, `tr=` is not a parameter.
pub tracker_parts :
    (qs : List Text)
    → all_values_of qs ≡ true
    → parameters (split 38 (116 ∷ 114 ∷ 61 ∷ join_trackers qs)) ≡ map tracker_parameter qs
unfolding join_trackers all_values_of
tracker_parts [] h = unfold split parameters is_parameter has_equals_inside in refl
tracker_parts (q ∷ []) h = last_part 116 114 q refl refl (ground arith)
tracker_parts (q ∷ r ∷ qs) h =
    let value : is_value q ≡ true = ground arith in
    let rest = tracker_parts (r ∷ qs) (ground arith) in
    first_part 116 114 q (116 ∷ 114 ∷ 61 ∷ join_trackers (r ∷ qs)) refl refl value
    ∙ ap (λ l. tracker_parameter q ∷ l) rest

pub all_values-trackers : (qs : List Text) → all_values tr_key (map tracker_parameter qs) ≡ qs
unfolding all_values eq_text
all_values-trackers [] = refl
all_values-trackers (q ∷ qs) = ap (λ l. q ∷ l) (all_values-trackers qs)
