-- ===== src/Magnet/Ed2k.antt =====
-- The ed2k link of a magnet link that has been read back.
use amarr.Prelude.{
  ℕ, zero, suc, ◌-◌, ◌≤◌, ◌≡◌, refl, ap, ◌∙◌, true, [], ◌∷◌, arith, length, take, length-take,
  take-append_le,
}
use amarr.Py.Seq.{Bytes, Text}
use amarr.Py.Result.{ok}
use amarr.Py.Url.RoundTrip.{all_octets}
use amarr.Jamule.Hex.{hex}
use amarr.Magnet.{MagnetLink, padded, zeros, amule_hex_hash, to_ed2k_link, to_text, from_string}
use amarr.Magnet.RoundTrip.{is_named, all_named, from_string-to_text}

take-take : (m n : ℕ) (xs : Bytes) → m ≤ n → take m (take n xs) ≡ take m xs
take-take zero n xs h = refl
take-take (suc m) zero xs h = absurd (omega arith)
take-take (suc m) (suc n) [] h = refl
take-take (suc m) (suc n) (x ∷ xs) h = ap (λ l. x ∷ l) (take-take m n xs (omega arith))

take-padded : (hash : Bytes) → 16 ≤ length hash → take 16 (padded hash) ≡ take 16 hash
take-padded hash h =
    take-append_le 16 (take 20 hash) (zeros (20 - length (take 20 hash)))
      (omega (arith, length-take 20 hash))
    ∙ take-take 16 20 hash (omega arith)

pub amule_hex_hash-padded :
    (m : MagnetLink)
    → 16 ≤ length m.hash
    → amule_hex_hash (record m { hash = padded m.hash }) ≡ amule_hex_hash m
unfolding amule_hex_hash
amule_hex_hash-padded m h = ap hex (take-padded m.hash h)

pub to_ed2k_link-padded :
    (m : MagnetLink)
    → 16 ≤ length m.hash
    → to_ed2k_link (record m { hash = padded m.hash }) ≡ to_ed2k_link m
unfolding to_ed2k_link amule_hex_hash
to_ed2k_link-padded m h = rw (take-padded m.hash h) refl

-- A link with at least the 16 bytes of an ed2k hash, with a name and trackers that are not empty and
-- have no surrogates, is written, read back, and gives the same ed2k link as before.
pub to_ed2k_link-from_string :
    (m : MagnetLink)
    → 16 ≤ length m.hash
    → all_octets m.hash ≡ true
    → is_named m.name ≡ true
    → all_named m.trackers ≡ true
    → (t : Text) × (n : MagnetLink) × (to_text m ≡ ok t)
      × (from_string t ≡ ok n)
      × (to_ed2k_link n ≡ to_ed2k_link m)
to_ed2k_link-from_string m h octets named trackers =
    let (t, written, read) = from_string-to_text m octets named trackers in
    (t, record m { hash = padded m.hash }, written, read, to_ed2k_link-padded m h)
