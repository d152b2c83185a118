-- ===== src/Tests/Links.antt =====
-- A magnet link with an ed2k hash, written and read back.
use amarr.Prelude.{ℕ, ◌≡◌, refl, ◌+◌, some, [], ◌∷◌, arith}
use amarr.Prelude.Int.{pos}
use amarr.Py.Result.{Result, ok, err}
use amarr.Py.Seq.{Text}
use amarr.Py.Utf8
use amarr.Py.Utf8.{all_scalar}
use amarr.Py.Url.{quote}
use amarr.Py.Equality.{eq_text}
use amarr.Category.Store.{store, empty_store}
use amarr.Torrent.Service.{Client, add_torrent}
use amarr.Torrent.Service.Addition.{add_torrent-to_text}
use amarr.Py.Url.RoundTrip.{all_octets}
use amarr.Magnet.{
  MagnetLink, is_amarr, is_member, amule_hex_hash, padded, for_amarr, to_text, from_string,
  to_ed2k_link,
}
use amarr.Magnet.RoundTrip.{from_string-to_text, all_named}
use amarr.Magnet.Ed2k.{to_ed2k_link-from_string}

abbrev pub link : MagnetLink
link =
    for_amarr (1 ∷ 2 ∷ 3 ∷ 4 ∷ 5 ∷ 6 ∷ 7 ∷ 8 ∷ 9 ∷ 10 ∷ 11 ∷ 12 ∷ 13 ∷ 14 ∷ 15 ∷ 255 ∷ [])
      (97 ∷ 38 ∷ 233 ∷ []) (pos 1000)

from_string-to_text_example :
    (t : Text) × (to_text link ≡ ok t)
    × (from_string t ≡ ok (record link { hash = padded link.hash }))
from_string-to_text_example =
    from_string-to_text link (unfold all_octets for_amarr in refl)
      (unfold all_scalar for_amarr in refl) (unfold all_named all_scalar for_amarr in refl)

to_ed2k_link-from_string_example :
    (t : Text) × (n : MagnetLink) × (to_text link ≡ ok t)
    × (from_string t ≡ ok n)
    × (to_ed2k_link n ≡ to_ed2k_link link)
to_ed2k_link-from_string_example =
    to_ed2k_link-from_string link (unfold for_amarr in omega arith)
      (unfold all_octets for_amarr in refl) (unfold all_scalar for_amarr in refl)
      (unfold all_named all_scalar for_amarr in refl)

abbrev pub quiet : Client ℕ
quiet = record {
  get_download_queue = λ w. (ok [], w);
  get_shared_files = λ w. (ok [], w);
  send_download_command = λ id command w. (ok tt, w);
  download_ed2k_link = λ link w. (ok tt, w + 1);
  remove = λ path w. (ok tt, w);
}

abbrev result_or_empty : Result Text → Text
result_or_empty (ok t) = t
result_or_empty (err e) = []

abbrev pub link_text : Text
link_text = result_or_empty (to_text link)

abbrev pub link_ed2k : Text
link_ed2k = result_or_empty (to_ed2k_link link)

pub link-written : (to_text link ≡ ok link_text) × (to_ed2k_link link ≡ ok link_ed2k)
unfolding to_text to_ed2k_link for_amarr quote Utf8.encode Utf8.encode_char
link-written = (refl, refl)

add_torrent-to_text_example :
    add_torrent quiet (some (link_text ∷ [])) (some (116 ∷ 118 ∷ [])) (0, empty_store)
    ≡ (ok tt, (1, store empty_store (116 ∷ 118 ∷ []) (amule_hex_hash link)))
add_torrent-to_text_example =
    add_torrent-to_text quiet link link_text link_ed2k (116 ∷ 118 ∷ []) 0 1 empty_store
      (unfold for_amarr in omega arith) (unfold all_octets for_amarr in refl)
      (unfold all_scalar for_amarr in refl) (unfold all_named all_scalar for_amarr in refl)
      (unfold is_amarr is_member eq_text for_amarr in refl) link-written.0 link-written.1 refl
