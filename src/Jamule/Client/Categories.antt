-- ===== src/Jamule/Client/Categories.antt =====
-- `set_file_category` of jamule/client.py.
use amarr.Prelude.{
  ℕ, ◌≡◌, refl, false, none, some, List, [], ◌∷◌, map, sym, arith, Bool-cases, inl, inr,
}
use amarr.Py.Result.{ok, err, communication}
use amarr.Py.Seq.{Bytes, Text}
use amarr.Py.Equality.{eq_optional, eq_optional_iff}
use amarr.Py.Stateful.{Stateful}
use amarr.Ec.Packet.{Packet}
use amarr.Torrent.Info.{occurs, part_hash}
use amarr.Jamule.Hex.{hex}
use amarr.Jamule.Model.PartFile.{PartFileTag}
use amarr.Jamule.Response.{Response}
use amarr.Jamule.Client.{find_part, get_download_queue, set_file_category}

find_part-absent :
    (hash : Text) (files : List PartFileTag)
    → occurs (some hash) (map part_hash files) ≡ false
    → find_part hash files ≡ none
unfolding find_part occurs
find_part-absent hash [] h = refl
find_part-absent hash (f ∷ fs) h = elim (Bool-cases (eq_optional (part_hash f) (some hash))) [
  | inl same ↦
      let equal : part_hash f ≡ some hash = (eq_optional_iff (part_hash f) (some hash)).0 same in
      let found = (eq_optional_iff (some hash) (part_hash f)).1 (sym equal) in absurd (ground arith)
  | inr other ↦ rw (other) (find_part-absent hash fs (ground arith))
]

-- A file that is not in the download queue gets no category: the call raises, and after the queue was
-- asked for nothing is sent.
set_file_category-absent :
    {W : Type 0} (send_request : Packet → Stateful W Response) (file_hash : Bytes) (category_id : ℕ)
    (files : List PartFileTag) (w w' : W)
    → get_download_queue send_request w ≡ (ok files, w')
    → occurs (some (hex file_hash)) (map part_hash files) ≡ false
    → set_file_category send_request file_hash category_id w ≡ (err communication, w')
unfolding set_file_category
set_file_category-absent send_request file_hash category_id files w w' queue absent =
    rw (queue, find_part-absent (hex file_hash) files absent) refl
