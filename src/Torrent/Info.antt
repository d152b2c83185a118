-- ===== src/Torrent/Info.antt =====
-- The queries of torrent/service.py: aMule's two lists merged into one view of torrents.
pub mod Numbers
pub mod Merge
pub mod View
use amarr.Prelude.{
  ℕ, zero, suc, ◌/◌, ◌<◌, Bool, true, false, not, ◌||◌, Option, none, some, List, [], ◌∷◌, ◌++◌,
  map, ltb, ◌==◌, if◌then◌else◌,
}
use amarr.Prelude.Int.{ℤ, pos, negsuc, ◌-ℤ◌, ltb_ℤ}
use amarr.Py.Result.{Result, ok, err, type_error, value_error, ◌>>=◌}
use amarr.Py.Seq.{Text}
use amarr.Py.Equality.{eq_optional}
use amarr.Category.Store.{CategoryStore, get_category}
use amarr.Jamule.Model.{FileStatus}
use amarr.Jamule.Model.SharedFile.{SharedFileTag}
use amarr.Jamule.Model.PartFile.{PartFileTag}
use amarr.Torrent.Models.{TorrentState, Ratio, TorrentInfo}

-- `_NO_ETA`
abbrev pub no_eta : ℕ
no_eta = 8640000

-- `n // d` for a positive `d`: rounded towards minus infinity.
abbrev pub floor_div : ℤ → ℕ → ℤ
floor_div (pos n) d = pos (n / d)
floor_div (negsuc n) d = negsuc (n / d)

abbrev pub min_ℤ : ℤ → ℤ → ℤ
min_ℤ a b = if ltb_ℤ b a then b else a

-- Arithmetic on a field that may be `None` raises `TypeError`.
abbrev pub required {ℓ} : {A : Type ℓ} → Option A → Result A
required none = err type_error
required (some a) = ok a

eta_at : ℤ → ℕ → ℤ
eta_at remaining speed =
    if speed == 0 then pos no_eta else min_ℤ (floor_div remaining speed) (pos no_eta)

-- `_compute_eta`
unfoldable pub compute_eta : Option ℕ → Option ℕ → Option ℕ → Result ℤ
unfolding eta_at ◌-ℤ◌
compute_eta speed size_full size_done = do
  full ← required size_full
  done ← required size_done
  s ← required speed
  ok (eta_at (pos full -ℤ pos done) s)

-- `_compute_progress`: `None` and 0 count alike.
unfoldable pub compute_progress : Option ℕ → Option ℕ → Ratio
compute_progress (some (suc done)) (some (suc full)) = record { num = suc done; den = suc full }
compute_progress _ _ = record { num = 0; den = 1 }

-- The state of a file in the queue.
unfoldable pub state_of : PartFileTag → TorrentState
state_of dl = if ltb 0 dl.source_xfer_count then TorrentState.downloading else elim dl.file_status [
  | FileStatus.ready ↦ TorrentState.meta_dl
  | FileStatus.error ↦ TorrentState.error
  | FileStatus.completing ↦ TorrentState.checking_dl
  | FileStatus.complete ↦ TorrentState.uploading
  | FileStatus.paused ↦ TorrentState.paused_dl
  | FileStatus.allocating ↦ TorrentState.allocating
  | FileStatus.insufficient ↦ TorrentState.error
  | _ ↦ TorrentState.unknown
]

-- A required field of a pydantic model refuses `None` with a `ValueError`.
abbrev pub validated {ℓ} : {A : Type ℓ} → Option A → Result A
validated none = err value_error
validated (some a) = ok a

-- `_transferring_to_info`: the arguments are computed before the model checks them.
unfoldable pub transferring_to_info : Text → PartFileTag → Option Text → Result TorrentInfo
unfolding state_of
transferring_to_info finished_path dl category = do
  eta ← compute_eta dl.speed dl.shared.size_full dl.size_done
  hash ← validated dl.shared.file_hash_hex_string
  name ← validated dl.shared.file_name
  size ← validated dl.shared.size_full
  downloaded ← validated dl.size_done
  speed ← validated dl.speed
  ok (record {
    hash = hash;
    name = name;
    size = size;
    progress = compute_progress dl.size_done dl.shared.size_full;
    eta = eta;
    state = state_of dl;
    category = category;
    save_path = finished_path;
    dlspeed = speed;
    num_seeds = dl.source_xfer_count;
    priority = dl.down_prio;
    total_size = size;
    downloaded = downloaded;
    seeding_time = 1;
  })

-- The branch of `get_torrent_info` for a file that is only shared.
unfoldable pub shared_to_info : Text → SharedFileTag → Option Text → Result TorrentInfo
shared_to_info finished_path dl category = do
  hash ← validated dl.file_hash_hex_string
  name ← validated dl.file_name
  size ← validated dl.size_full
  ok (record {
    hash = hash;
    name = name;
    size = size;
    progress = record { num = 1; den = 1 };
    eta = pos 0;
    state = TorrentState.uploading;
    category = category;
    save_path = finished_path;
    dlspeed = 0;
    num_seeds = 0;
    priority = pos 0;
    total_size = size;
    downloaded = size;
    seeding_time = 1;
  })

-- `AmuleFile`: the class decides which branch makes the view.
pub data AmuleFile : Type 0 where
  shared_file : SharedFileTag → AmuleFile
  part_file : PartFileTag → AmuleFile

abbrev pub hash_of : AmuleFile → Option Text
hash_of (shared_file f) = f.file_hash_hex_string
hash_of (part_file f) = f.shared.file_hash_hex_string

abbrev pub part_hash : PartFileTag → Option Text
part_hash f = f.shared.file_hash_hex_string

abbrev pub shared_hash : SharedFileTag → Option Text
shared_hash f = f.file_hash_hex_string

-- `hash in hashes`
unfoldable pub occurs : Option Text → List (Option Text) → Bool
occurs h [] = false
occurs h (x ∷ xs) = eq_optional h x || occurs h xs

unfoldable pub keep_if {ℓ} : {A : Type ℓ} → (A → Bool) → List A → List A
keep_if p [] = []
keep_if p (x ∷ xs) = let rest = keep_if p xs in if p x then x ∷ rest else rest

-- Shared files that are not in the queue, then the queue.
unfoldable pub merge_files : List PartFileTag → List SharedFileTag → List AmuleFile
merge_files queue shared =
    map shared_file (keep_if (λ f. not (occurs (shared_hash f) (map part_hash queue))) shared)
    ++ map part_file queue

abbrev pub in_category : CategoryStore → Option Text → AmuleFile → Bool
in_category store none f = true
in_category store (some c) f = eq_optional (get_category store (hash_of f)) (some c)

unfoldable pub to_info : Text → Option Text → AmuleFile → Result TorrentInfo
to_info finished_path category (shared_file f) = shared_to_info finished_path f category
to_info finished_path category (part_file f) = transferring_to_info finished_path f category

unfoldable pub to_infos : Text → Option Text → List AmuleFile → Result (List TorrentInfo)
to_infos finished_path category [] = ok []
to_infos finished_path category (f ∷ fs) = do
  info ← to_info finished_path category f
  infos ← to_infos finished_path category fs
  ok (info ∷ infos)

-- `get_torrent_info` on the lists that aMule returned.
unfoldable pub torrent_infos :
    Text
    → CategoryStore
    → Option Text
    → List PartFileTag
    → List SharedFileTag
    → Result (List TorrentInfo)
torrent_infos finished_path store category queue shared =
    to_infos finished_path category
      (keep_if (in_category store category) (merge_files queue shared))
