-- ===== src/Torrent/Service.antt =====
-- torrent/service.py: `TorrentService` over an aMule client, the file system and the category store.
pub mod Deletion
pub mod Addition
use amarr.Prelude.{ℕ, Bool, true, false, Option, none, some, List, [], ◌∷◌, map, if◌then◌else◌}
use amarr.Py.Result.{
  ignore_os_error, Result, ok, err, Exc, type_error, stop_iteration, os_error, not_found,
}
use amarr.Py.Seq.{Bytes, Text}
use amarr.Py.Equality.{eq_text, eq_optional}
use amarr.Category.Store.{Category, CategoryStore}
use amarr.Category.Store
use amarr.Jamule.Hex.{from_hex}
use amarr.Magnet.{MagnetLink, from_string, is_amarr, to_ed2k_link, amule_hex_hash}
use amarr.Jamule.Model.{DownloadCommand}
use amarr.Jamule.Model.SharedFile.{SharedFileTag}
use amarr.Jamule.Model.PartFile.{PartFileTag}
use amarr.Torrent.Models.{TorrentInfo, TorrentFile, TorrentProperties}
use amarr.Torrent.Info.{occurs, part_hash, shared_hash, torrent_infos}

-- What the service calls: `AmuleClient`, and `os.remove`. `W` is the state of aMule and of the disk.
pub record Client (W : Type 0) : Type 0 where
  pub get_download_queue : W → Result (List PartFileTag) × W
  pub get_shared_files : W → Result (List SharedFileTag) × W
  pub send_download_command : Bytes → DownloadCommand → W → Result (Unit {0}) × W
  pub download_ed2k_link : Text → W → Result (Unit {0}) × W
  pub remove : Text → W → Result (Unit {0}) × W

-- The state that a request reads and changes, and what a request does with it.
abbrev pub State : Type 0 → Type 0
State W = W × CategoryStore

abbrev pub Action : Type 0 → Type 0 → Type 0
Action W A = State W → Result A × State W

abbrev pub continue : {W A B : Type 0} → Result A × State W → (A → Action W B) → Result B × State W
continue (ok a, s) f = f a s
continue (err e, s) f = (err e, s)

infixl 5 ◌>>=◌ ◌>>◌
abbrev pub ◌>>=◌ : {W A B : Type 0} → Action W A → (A → Action W B) → Action W B
◌>>=◌ m f s = continue (m s) f

abbrev pub ◌>>◌ : {W B : Type 0} → Action W (Unit {0}) → Action W B → Action W B
m >> k = m >>= λ _. k

abbrev pub give : {W A : Type 0} → A → Action W A
give a s = (ok a, s)

abbrev pub lift : {W A : Type 0} → Result A → Action W A
lift r s = (r, s)

-- A call of the client leaves the categories alone, and a call of the store leaves aMule alone.
abbrev pub call : {W A : Type 0} → (W → Result A × W) → Action W A
call f (w, s) = let (r, w') = f w in (r, (w', s))

abbrev pub update : {W : Type 0} → (CategoryStore → CategoryStore) → Action W (Unit {0})
update f (w, s) = (ok tt, (w, f s))

-- `except OSError`, which the code logs.
abbrev pub except_os_error : {W : Type 0} → Action W (Unit {0}) → Action W (Unit {0})
except_os_error m s = let (r, s') = m s in (ignore_os_error r, s')

-- `next(f for f in files if f.hash == hash)`
unfoldable pub find_shared : Text → List SharedFileTag → Option SharedFileTag
find_shared hash [] = none
find_shared hash (f ∷ fs) =
    let later = find_shared hash fs in
    if eq_optional (shared_hash f) (some hash) then some f else later

unfoldable pub find_info : Text → List TorrentInfo → Result TorrentInfo
find_info hash [] = err stop_iteration
find_info hash (t ∷ ts) =
    let later = find_info hash ts in if eq_text t.hash hash then ok t else later

-- The path of the file, where there is one that is not empty.
abbrev pub path_to_remove : Option SharedFileTag → Option Text
path_to_remove none = none
path_to_remove (some f) = elim f.file_path [ some (c ∷ path) ↦ some (c ∷ path) | _ ↦ none ]

-- `bytes.fromhex` of a hash that may be `None`.
abbrev from_hex_optional : Option Text → Result Bytes
from_hex_optional none = err type_error
from_hex_optional (some hash) = from_hex hash

-- `delete_files == "true"`
abbrev pub true_text : Text
true_text = 116 ∷ 114 ∷ 117 ∷ 101 ∷ []

module _ {W : Type 0} (amule : Client W) (finished_path : Text) where
  unfoldable pub get_torrent_info : Option Text → Action W (List TorrentInfo)
  get_torrent_info category = do
    downloading ← call amule.get_download_queue
    shared ← call amule.get_shared_files
    (λ s. (torrent_infos finished_path s.1 category downloading shared, s))

  unfoldable pub get_file : Text → Action W TorrentFile
  get_file hash = do
    infos ← get_torrent_info none
    info ← lift (find_info hash infos)
    give (record { name = info.name })

  unfoldable pub get_torrent_properties : Text → Action W TorrentProperties
  get_torrent_properties hash = do
    infos ← get_torrent_info none
    info ← lift (find_info hash infos)
    give (record { hash = info.hash; save_path = info.save_path; seeding_time = info.seeding_time })

module _ {W : Type 0} (amule : Client W) where
  abbrev pub remove_if_found : Option Text → Action W (Unit {0})
  remove_if_found none = give tt
  remove_if_found (some path) = except_os_error (call (amule.remove path))

  -- `_delete_shared_file_by_hash`
  unfoldable pub delete_shared_file_by_hash : Text → Action W (Unit {0})
  delete_shared_file_by_hash hash = do
    shared ← call amule.get_shared_files
    remove_if_found (path_to_remove (find_shared hash shared))

  -- One hash of `delete_torrent`, before its category is deleted.
  unfoldable pub delete_file : List (Option Text) → Option Text → Text → Action W (Unit {0})
  delete_file downloading delete_files hash =
      let send = do
        id ← lift (from_hex hash)
        call (amule.send_download_command id DownloadCommand.delete)
      in if occurs (some hash) downloading
        then send
        else if eq_optional delete_files (some true_text)
        then delete_shared_file_by_hash hash
        else give tt

  unfoldable pub delete_each : List (Option Text) → Option Text → List Text → Action W (Unit {0})
  delete_each downloading delete_files [] = give tt
  delete_each downloading delete_files (hash ∷ hashes) =
      (delete_file downloading delete_files hash >> update (λ s. Store.delete s hash))
      >> delete_each downloading delete_files hashes

  unfoldable pub delete_torrent : List Text → Option Text → Action W (Unit {0})
  delete_torrent hashes delete_files = do
    downloading ← call amule.get_download_queue
    delete_each (map part_hash downloading) delete_files hashes

  -- A hash that is `None` does not come this far.
  abbrev delete_category : Option Text → Action W (Unit {0})
  delete_category none = give tt
  delete_category (some hash) = update (λ s. Store.delete s hash)

  unfoldable pub delete_shared : List SharedFileTag → Action W (Unit {0})
  delete_shared [] = give tt
  delete_shared (f ∷ fs) = do
    id ← lift (from_hex_optional (shared_hash f))
    call (amule.send_download_command id DownloadCommand.delete)
    delete_category (shared_hash f)
    delete_shared fs

  unfoldable pub delete_all_torrents : Action W (Unit {0})
  delete_all_torrents = do shared ← call amule.get_shared_files; delete_shared shared

-- `except Exception: raise self._non_amarr_link(url)`, and the links of others refused.
abbrev pub refuse_others : Result MagnetLink → Result MagnetLink
refuse_others (err e) = err not_found
refuse_others (ok magnet_link) = if is_amarr magnet_link then ok magnet_link else err not_found

abbrev pub amarr_link : Text → Result MagnetLink
amarr_link url = refuse_others (from_string url)

abbrev pub store_category : {W : Type 0} → Option Text → Text → Action W (Unit {0})
store_category none hash = give tt
store_category (some category) hash = update (λ s. Store.store s category hash)

module _ {W : Type 0} (amule : Client W) where
  unfoldable pub add_each : List Text → Option Text → Action W (Unit {0})
  add_each [] category = give tt
  add_each (url ∷ urls) category = do
    magnet_link ← lift (amarr_link url)
    link ← lift (to_ed2k_link magnet_link)
    call (amule.download_ed2k_link link)
    store_category category (amule_hex_hash magnet_link)
    add_each urls category

  unfoldable pub add_torrent : Option (List Text) → Option Text → Action W (Unit {0})
  add_torrent none category = lift (err not_found)
  add_torrent (some urls) category = add_each urls category

-- `get_categories` and `add_category`
unfoldable pub get_categories : {W : Type 0} → Action W (List (Text × Category))
get_categories (w, s) = (ok (map (λ (c : Category). (c.name, c)) (Store.get_categories s)), (w, s))

unfoldable pub add_category : {W : Type 0} → Category → Action W (Unit {0})
add_category c = update (λ s. Store.add_category s c)
