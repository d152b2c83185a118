-- ===== src/Tests/Files.antt =====
-- Runs of the theorems on streams, hashes, categories and files.
use amarr.Prelude.{
  ℕ, ◌≡◌, ◌≤◌, ◌<◌, ◌*◌, ◌&&◌, ◌||◌, inl, refl, true, false, Option, none, some, List, [], ◌∷◌, map,
  if◌then◌else◌, arith,
}
use amarr.Prelude.Int.{pos}
use amarr.Py.Result.{ok, err, type_error, os_error}
use amarr.Py.Seq.{Bytes, Text}
use amarr.Ec.Packet.Stream.{Stream, contents, is_open, read_n, read_n-take}
use amarr.Py.Equality.{eq_optional, eq_text}
use amarr.Jamule.Hex.{hex, from_hex, all_bytes, from_hex-hex}
use amarr.Jamule.Model.{FileStatus}
use amarr.Jamule.Model.SharedFile.{SharedFileTag}
use amarr.Jamule.Model.PartFile.{PartFileTag}
use amarr.Category.Store.{empty_store, store, delete, get_category, get_categories}
use amarr.Py.Table
use amarr.Category.Laws.{
  Operation, store_op, delete_op, add_op, run, run_spec, run_all, view, SameView, run-refines,
}
use amarr.Category.History.{paths_named, run_all-last}
use amarr.Torrent.Models.{TorrentInfo}
use amarr.Torrent.Info.{
  compute_eta, compute_progress, transferring_to_info, torrent_infos, occurs, part_hash,
  shared_hash,
}
use amarr.Torrent.Info.Numbers.{
  IsEstimate, compute_eta-IsEstimate, compute_progress-IsFraction, transferring_to_info-missing,
}
use amarr.Torrent.Info.Merge.{distinct}
use amarr.Torrent.Info.View.{
  every, complete_part, complete_shared, info_hash, hash_in_category, torrent_infos-occurs,
  torrent_infos-distinct,
}
use amarr.Torrent.Service.{Client, State, delete_torrent, delete_each, delete_file}
use amarr.Torrent.Service.Deletion.{
  listed, category_of, category_of-delete_torrent, category_of-delete_torrent_other,
}

abbrev tv : Text
tv = 116 ∷ 118 ∷ []

abbrev hash_ab : Text
hash_ab = 97 ∷ 98 ∷ []

abbrev film : Text
film = 102 ∷ 105 ∷ 108 ∷ 109 ∷ []

abbrev hash_cd : Text
hash_cd = 99 ∷ 100 ∷ []

abbrev file_name_text : Text
file_name_text = 110 ∷ 97 ∷ 109 ∷ 101 ∷ []

abbrev path_text : Text
path_text = 112 ∷ 97 ∷ 116 ∷ 104 ∷ []

-- Five bytes in two chunks.
abbrev two_chunks : Stream
two_chunks = (1 ∷ 2 ∷ []) ∷ (3 ∷ 4 ∷ 5 ∷ []) ∷ []

read_n-take_example :
    (rest : Stream) × (read_n 3 two_chunks ≡ ok (1 ∷ 2 ∷ 3 ∷ [], rest))
    × (contents rest ≡ 4 ∷ 5 ∷ [])
    × (is_open rest ≡ true)
read_n-take_example = read_n-take 3 two_chunks refl (omega arith)

from_hex-hex_example : from_hex (hex (0 ∷ 171 ∷ 255 ∷ [])) ≡ ok (0 ∷ 171 ∷ 255 ∷ [])
from_hex-hex_example = from_hex-hex (0 ∷ 171 ∷ 255 ∷ []) (unfold all_bytes in refl)

run-refines_example :
    SameView
      (view (run empty_store (store_op tv hash_ab)))
      (run_spec (view empty_store) (store_op tv hash_ab))
run-refines_example = run-refines empty_store (store_op tv hash_ab)

-- A category is assigned anew, and one is added twice.
abbrev history : List Operation
history =
    store_op tv hash_ab
    ∷ add_op (record { name = tv; save_path = hash_ab })
    ∷ store_op film hash_ab
    ∷ delete_op hash_cd
    ∷ add_op (record { name = tv; save_path = hash_cd })
    ∷ []

run_all-last_example :
    (get_category (run_all empty_store history) (some hash_ab) ≡ some film)
    × (paths_named tv (get_categories (run_all empty_store history)) ≡ hash_cd ∷ [])
unfolding eq_text
run_all-last_example = run_all-last history hash_ab tv

compute_eta-IsEstimate_example :
    (e : ℕ) × (compute_eta (some 10) (some 100) (some 45) ≡ ok (pos e)) × IsEstimate 55 10 e
compute_eta-IsEstimate_example = compute_eta-IsEstimate 10 100 45 (omega arith)

compute_progress-IsFraction_example :
    let progress = compute_progress (some 45) (some 100) in
    (progress.num ≤ progress.den) × (0 < progress.den) × (progress.num * 100 ≡ 45 * progress.den)
compute_progress-IsFraction_example = compute_progress-IsFraction 45 100 (omega arith)

abbrev shared_named : Text → SharedFileTag
shared_named hash = record {
  file_hash_hex_string = some hash;
  file_name = some file_name_text;
  file_path = some path_text;
  size_full = some 100;
  file_ed2k_link = none;
  up_prio = pos 0;
  get_requests = 0;
  get_all_requests = 0;
  get_accepts = 0;
  get_all_accepts = 0;
  get_xferred = 0;
  get_all_xferred = 0;
  get_complete_sources_low = 0;
  get_complete_sources_high = 0;
  get_complete_sources = 0;
  get_on_queue = 0;
  get_comment = none;
  get_rating = none;
}

abbrev part_of : SharedFileTag → PartFileTag
part_of f = record {
  shared = f;
  part_met_id = none;
  size_xfer = some 45;
  size_done = some 45;
  file_status = FileStatus.ready;
  stopped = false;
  source_count = 1;
  source_not_curr_count = 0;
  source_xfer_count = 1;
  source_count_a4af = 0;
  speed = some 10;
  down_prio = pos 0;
  file_cat = 0;
  last_seen_complete = 0;
  last_date_changed = 0;
  download_active_time = 0;
  available_part_count = 0;
  a4af_auto = false;
  hashing_progress = false;
  get_lost_due_to_corruption = 0;
  get_gain_due_to_compression = 0;
  total_packets_saved_due_to_ich = 0;
}

-- A file that aMule has just begun: its size is not known.
abbrev new_file : PartFileTag
new_file = part_of (record (shared_named hash_ab) { size_full = none })

transferring_to_info-missing_example : transferring_to_info path_text new_file none ≡ err type_error
transferring_to_info-missing_example =
    transferring_to_info-missing path_text new_file none (inl refl)

-- One file in the queue, which is shared as well, and one that is only shared.
abbrev queue : List PartFileTag
queue = part_of (shared_named hash_ab) ∷ []

abbrev shared : List SharedFileTag
shared = shared_named hash_ab ∷ shared_named hash_cd ∷ []

torrent_infos-occurs_example :
    (infos : List TorrentInfo) × (torrent_infos path_text empty_store none queue shared ≡ ok infos)
    × ((h : Option Text)
        → occurs h (map info_hash infos) ≡ (
            (occurs h (map shared_hash shared) || occurs h (map part_hash queue))
            && hash_in_category empty_store none h))
torrent_infos-occurs_example =
    torrent_infos-occurs path_text empty_store none queue shared
      (unfold every complete_part complete_shared in refl) (unfold every complete_shared in refl)

torrent_infos-distinct_example :
    (infos : List TorrentInfo) × (torrent_infos path_text empty_store none queue shared ≡ ok infos)
    × (distinct (map info_hash infos) ≡ true)
torrent_infos-distinct_example =
    torrent_infos-distinct path_text empty_store none queue shared
      (unfold every complete_part complete_shared in refl) (unfold every complete_shared in refl)
      (unfold distinct occurs in refl) (unfold distinct occurs eq_optional eq_text in refl)

-- aMule with these lists, which notes the commands it gets.
abbrev amule : Client (List Bytes)
amule = record {
  get_download_queue = λ w. (ok queue, w);
  get_shared_files = λ w. (ok shared, w);
  send_download_command = λ id command w. (ok tt, id ∷ w);
  download_ed2k_link = λ link w. (ok tt, w);
  remove = λ path w. (err os_error, w);
}

abbrev before : State (List Bytes)
before = ([], store empty_store tv hash_ab)

abbrev after : State (List Bytes)
after = ((171 ∷ []) ∷ [], empty_store)

deleted : delete_torrent amule (hash_ab ∷ []) none before ≡ (ok tt, after)
unfolding delete_torrent delete_each delete_file store delete eq_text eq_optional from_hex occurs
    Table.delete Table.insert_or_replace
deleted = refl

category_of-delete_torrent_example :
    category_of after hash_ab
    ≡ (if listed hash_ab (hash_ab ∷ []) then none else category_of before hash_ab)
category_of-delete_torrent_example =
    category_of-delete_torrent amule (hash_ab ∷ []) none before after hash_ab deleted

category_of-delete_torrent_other_example :
    category_of (delete_torrent amule (hash_ab ∷ []) none before).1 hash_cd
    ≡ category_of before hash_cd
category_of-delete_torrent_other_example =
    category_of-delete_torrent_other amule (hash_ab ∷ []) none before hash_cd
      (unfold listed eq_text in refl)
