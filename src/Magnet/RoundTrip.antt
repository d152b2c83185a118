-- ===== src/Magnet/RoundTrip.antt =====
-- `MagnetLink.from_string` reads the text of a link back.
use amarr.Prelude.{
  ℕ, zero, suc, ◌-◌, ◌≡◌, ◌≢◌, refl, ap, sym, ◌∙◌, Bool, true, false, ◌&&◌, List, [], ◌∷◌, ◌++◌,
  map, arith, length, take, length-append, length-take,
}
use amarr.Prelude.Int.{ℤ}
use amarr.Py.Result.{ok, err, value_error}
use amarr.Py.Seq.{Bytes, Text}
use amarr.Py.Utf8.{all_scalar}
use amarr.Py.Decimal.{int, int_text, split, none_of}
use amarr.Py.Decimal.RoundTrip.{int-int_text}
use amarr.Py.Equality.{eq_text}
use amarr.Py.Url.{quote, unquote, unquote_from, decode_run, decode_replace, unquote_to_bytes}
use amarr.Py.Url.RoundTrip.{all_plain, all_octets, unquote-quote}
use amarr.Py.Base32.{b32encode, b32decode}
use amarr.Py.Base32.RoundTrip.{b32decode-b32encode}
use amarr.Magnet.{
  MagnetLink, padded, zeros, quote_each, join_trackers, link_body, to_text, from_string, link_of,
  parameters, after_first, magnet_prefix, btih_prefix, next_value, all_values, xt_key, dn_key,
  xl_key,
}
use amarr.Magnet.Parts.{
  is_value, all_values_of, tracker_parameter, tracker_parts, all_values-trackers, first_part,
  int_text-plain, plain-is_value, plain-none_of, plain-no_ampersand,
}

-- Not empty and without surrogates.
abbrev pub is_named : Text → Bool
is_named [] = false
is_named (c ∷ cs) = all_scalar (c ∷ cs)

unfoldable pub all_named : List Text → Bool
all_named [] = true
all_named (t ∷ ts) = is_named t && all_named ts

is_value-plain : (q : Text) → all_plain q ≡ true → unquote q ≢ [] → is_value q ≡ true
is_value-plain [] p n =
    absurd (n (unfold unquote unquote_from decode_run decode_replace unquote_to_bytes in refl))
is_value-plain (c ∷ cs) p n = plain-is_value c cs p

quote-named :
    (t : Text)
    → is_named t ≡ true
    → (q : Text) × (quote t ≡ ok q) × (unquote q ≡ t) × (is_value q ≡ true)
quote-named [] h = cc
quote-named (c ∷ cs) h =
    let (q, e, back, plain) = unquote-quote (c ∷ cs) h in
    (q, e, back, is_value-plain q plain (λ empty. ground (arith, back, empty)))

quote_each-named :
    (ts : List Text)
    → all_named ts ≡ true
    → (qs : List Text) × (quote_each ts ≡ ok qs) × (map unquote qs ≡ ts) × (all_values_of qs ≡ true)
unfolding all_named all_values_of
quote_each-named [] h = ([], refl, refl, refl)
quote_each-named (t ∷ ts) h =
    let (q, e, back, value) = quote-named t (ground arith) in
    let (qs, es, backs, values) = quote_each-named ts (ground arith) in
    (q ∷ qs, rw (e, es), rw (back, backs) refl, rw (value) values)

length-zeros : (n : ℕ) → length (zeros n) ≡ n
unfolding zeros
length-zeros zero = refl
length-zeros (suc n) = omega (arith, length-zeros n)

length-padded : (hash : Bytes) → length (padded hash) ≡ 20
length-padded hash = omega (
  arith,
  length-append (take 20 hash) (zeros (20 - length (take 20 hash))),
  length-take 20 hash,
  length-zeros (20 - length (take 20 hash)),
)

octets-append :
    (xs ys : Bytes) → all_octets xs ≡ true → all_octets ys ≡ true → all_octets (xs ++ ys) ≡ true
unfolding all_octets
octets-append [] ys h k = k
octets-append (x ∷ xs) ys h k = ground (arith, octets-append xs ys)

octets-take : (n : ℕ) (xs : Bytes) → all_octets xs ≡ true → all_octets (take n xs) ≡ true
unfolding all_octets
octets-take zero xs h = refl
octets-take (suc n) [] h = refl
octets-take (suc n) (x ∷ xs) h = ground (arith, octets-take n xs)

octets-zeros : (n : ℕ) → all_octets (zeros n) ≡ true
unfolding all_octets zeros
octets-zeros zero = refl
octets-zeros (suc n) = octets-zeros n

octets-padded : (hash : Bytes) → all_octets hash ≡ true → all_octets (padded hash) ≡ true
octets-padded hash h =
    octets-append (take 20 hash) (zeros (20 - length (take 20 hash))) (octets-take 20 hash h)
      (octets-zeros (20 - length (take 20 hash)))

value-nonempty : (t : Text) → all_plain t ≡ true → t ≢ [] → is_value t ≡ true
value-nonempty [] p n = absurd (n refl)
value-nonempty (c ∷ cs) p n = plain-is_value c cs p

int_text-value : (z : ℤ) → is_value (int_text z) ≡ true
int_text-value z =
    value-nonempty (int_text z) (int_text-plain z)
      (λ empty. ground (arith, sym (int-int_text z) ∙ ap int empty, int-nil))
  where
    int-nil : int [] ≡ err value_error
    int-nil = unfold int in refl

btih-value : (t : Text) → all_plain t ≡ true → is_value (btih_prefix ++ t) ≡ true
unfolding is_value none_of
btih-value t p = ground (arith, plain-no_ampersand t p, plain-none_of 10 t (omega arith) p)

-- The parameters of a body.
body_parameters :
    (b32 name size : Text) (qs : List Text)
    → all_plain b32 ≡ true
    → is_value name ≡ true
    → is_value size ≡ true
    → all_values_of qs ≡ true
    → parameters (split 38 (link_body b32 name size (join_trackers qs)))
      ≡ (xt_key, btih_prefix ++ b32) ∷ (dn_key, name) ∷ (xl_key, size) ∷ map tracker_parameter qs
body_parameters b32 name size qs p n s h =
    let trackers : Text = 116 ∷ 114 ∷ 61 ∷ join_trackers qs in
    let sized : Text = (120 ∷ 108 ∷ 61 ∷ size) ++ 38 ∷ trackers in
    let named : Text = (100 ∷ 110 ∷ 61 ∷ name) ++ 38 ∷ sized in
    first_part 120 116 (btih_prefix ++ b32) named refl refl (btih-value b32 p)
    ∙ ap (λ l. (xt_key, btih_prefix ++ b32) ∷ l)
        (first_part 100 110 name sized refl refl n
          ∙ ap (λ l. (dn_key, name) ∷ l)
              (first_part 120 108 size trackers refl refl s
                ∙ ap (λ l. (xl_key, size) ∷ l) (tracker_parts qs h)))

-- What is looked up in them.
link_of-parameters :
    (b32 name size_text : Text) (qs : List Text) (hash : Bytes) (size : ℤ)
    → b32decode b32 ≡ ok hash
    → int size_text ≡ ok size
    → link_of (
        (xt_key, btih_prefix ++ b32)
        ∷ (dn_key, name)
        ∷ (xl_key, size_text)
        ∷ map tracker_parameter qs)
      ≡ ok (record { hash = hash; name = unquote name; size = size; trackers = map unquote qs })
unfolding link_of next_value all_values eq_text after_first
link_of-parameters b32 name size_text qs hash size h e = rw (h, e, all_values-trackers qs) refl

-- The text of a link whose name is not empty and has no surrogates, and whose trackers are the same, and
-- whose hash is bytes, is read back as the link, with the hash cut or filled up to 20 bytes.
pub from_string-to_text :
    (m : MagnetLink)
    → all_octets m.hash ≡ true
    → is_named m.name ≡ true
    → all_named m.trackers ≡ true
    → (t : Text) × (to_text m ≡ ok t) × (from_string t ≡ ok (record m { hash = padded m.hash }))
unfolding to_text from_string after_first
from_string-to_text m octets named trackers =
    let (q, e, back, value) = quote-named m.name named in
    let (qs, es, backs, values) = quote_each-named m.trackers trackers in
    let (decoded, plain) =
      b32decode-b32encode 4 (padded m.hash) (omega (arith, length-padded m.hash))
        (octets-padded m.hash octets) in
    let b32 = b32encode (padded m.hash) in
    let params =
      body_parameters b32 q (int_text m.size) qs plain value (int_text-value m.size) values in
    let link =
      link_of-parameters b32 q (int_text m.size) qs (padded m.hash) m.size decoded
        (int-int_text m.size) in
    (
      magnet_prefix ++ link_body b32 q (int_text m.size) (join_trackers qs),
      rw (e, es),
      ap link_of params
          ∙ link
          ∙ ap
              (λ (r : Text × List Text).
                ok (record m { hash = padded m.hash; name = r.0; trackers = r.1 }))
              (λ i. (back i, backs i)),
    )
