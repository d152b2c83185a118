-- ===== src/Torrent/Service/Addition.antt =====
-- What `add_torrent` does with a link that amarr itself has given out.
use amarr.Prelude.{◌≤◌, ◌≡◌, refl, ap, sym, ◌∙◌, true, some, [], ◌∷◌, length}
use amarr.Py.Result.{ok, ok-injective}
use amarr.Py.Seq.{Text}
use amarr.Py.Url.RoundTrip.{all_octets}
use amarr.Category.Store.{CategoryStore}
use amarr.Category.Store
use amarr.Magnet.{MagnetLink, padded, amule_hex_hash, to_ed2k_link, is_amarr, to_text}
use amarr.Magnet.RoundTrip.{is_named, all_named, from_string-to_text}
use amarr.Magnet.Ed2k.{to_ed2k_link-padded, amule_hex_hash-padded}
use amarr.Torrent.Service.{Client, amarr_link, refuse_others, add_each, add_torrent}

-- The text of a link of amarr gives the link.
amarr_link-to_text :
    (m : MagnetLink) (t : Text)
    → all_octets m.hash ≡ true
    → is_named m.name ≡ true
    → all_named m.trackers ≡ true
    → is_amarr m ≡ true
    → to_text m ≡ ok t
    → amarr_link t ≡ ok (record m { hash = padded m.hash })
unfolding is_amarr
amarr_link-to_text m t octets named trackers amarr written =
    let (t', e, read) = from_string-to_text m octets named trackers in
    let same : t' ≡ t = ok-injective (sym e ∙ written) in
    ap amarr_link (sym same) ∙ ap refuse_others read ∙ rw (amarr) refl

-- When aMule takes the ed2k link of a magnet link that amarr wrote, with at least 16 bytes of hash and
-- with a name and trackers that are not empty and have no surrogates, `add_torrent` on its text and a
-- category sends that ed2k link and stores the category under the hash of the link.
pub add_torrent-to_text :
    {W : Type 0} (amule : Client W) (m : MagnetLink) (t link category : Text) (w w' : W)
    (s : CategoryStore)
    → 16 ≤ length m.hash
    → all_octets m.hash ≡ true
    → is_named m.name ≡ true
    → all_named m.trackers ≡ true
    → is_amarr m ≡ true
    → to_text m ≡ ok t
    → to_ed2k_link m ≡ ok link
    → amule.download_ed2k_link link w ≡ (ok tt, w')
    → add_torrent amule (some (t ∷ [])) (some category) (w, s)
      ≡ (ok tt, (w', Store.store s category (amule_hex_hash m)))
unfolding add_torrent add_each
add_torrent-to_text amule m t link category w w' s h octets named trackers amarr written ed2k sent =
    rw
      (
        amarr_link-to_text m t octets named trackers amarr written,
        to_ed2k_link-padded m h,
        ed2k,
        sent,
        amule_hex_hash-padded m h,
      )
      refl
